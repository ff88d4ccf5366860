-- ===== src/Error.antt =====
-- trap.rs and error.rs: what a fallible operation can fail with, and the results that carry it.
use submilli_wasm.Base.{ℕ, ◌≡◌, refl, String, Option, none, some, ◌⊎◌, inl, inr}

pub data Trap : Type 0 where
  stack_overflow memory_out_of_bounds heap_misaligned table_out_of_bounds : Trap
  indirect_call_to_null bad_signature integer_overflow integer_division_by_zero : Trap
  bad_conversion_to_integer unreachable_code_reached interrupt out_of_fuel : Trap
  null_reference null_array_reference null_struct_reference null_i31_reference : Trap
  cast_failure array_out_of_bounds allocation_too_large : Trap
  cannot_enter_component no_async_result : Trap

pub data InternalError : Type 0 where
  operand_stack : String → InternalError
  frame_stack : String → InternalError
  result_shape : String → InternalError
  gc_metadata : String → InternalError
  compiler : String → InternalError

-- `pending_exception` is `PendingException` of exec/exn.rs, a raised exception on its way out.
-- `panicked` is not a value of the source: it stands for a Rust panic, such as an index out of
-- bounds, that a theorem shows absent.
pub data Error : Type 0 where
  trap : Trap → Error
  internal : InternalError → Error
  msg : String → Error
  gc_heap_out_of_memory : ℕ → Error
  pending_exception : ℕ → Error
  panicked : Error

pub data Result {μ} (T : Type μ) : Type μ where
  ok : T → Result T
  err : Error → Result T

-- `?` on the first result, and on one whose value is not used.
infixl 5 ◌>>=◌ ◌>>◌
abbrev pub ◌>>=◌ {μ ν} : {T : Type μ} {U : Type ν} → Result T → (T → Result U) → Result U
err failure >>= next = err failure
ok value >>= next = next value

abbrev pub ◌>>◌ {ν} : {U : Type ν} → Result (Unit {0}) → Result U → Result U
err failure >> rest = err failure
ok done >> rest = rest

-- `o.ok_or(e)`.
abbrev pub ok_or {ℓ} : {A : Type ℓ} → Option A → Error → Result A
ok_or none e = err e
ok_or (some a) e = ok a

pub Result-cases {ℓ} :
    {A : Type ℓ} (r : Result A) → ((a : A) × (r ≡ ok a)) ⊎ ((e : Error) × (r ≡ err e))
Result-cases (ok a) = inl (a, refl)
Result-cases (err e) = inr (e, refl)

abbrev pub bad_stack : String → Error
bad_stack text = internal (operand_stack text)

abbrev pub bad_frame : String → Error
bad_frame text = internal (frame_stack text)

abbrev pub bad_results : String → Error
bad_results text = internal (result_shape text)
