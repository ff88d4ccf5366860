-- ===== src/Exec/Stack/Typed.antt =====
-- exec/stack.rs and exec/cell.rs: pushes and pops of typed values.
use submilli_wasm.Base.{
  ℕ, ◌^◌, ◌≤◌, ◌<◌, ◌≡◌, ◌≢◌, refl, sym, ap, Option, none, some, Bool, true, [], ◌∷◌, ◌++◌, length,
  arith, length-append, take-append, get_elem?-append_at, ◌==◌, ==_iff, Bool-cases, inl, inr,
}
use submilli_wasm.Base.Bytes.{
  to_le_bytes, from_le_bytes, from_le_bytes-to_le_bytes, length-to_le_bytes,
}
use submilli_wasm.Error.{ok}
use submilli_wasm.State.{then_run, then_run-ok}
use submilli_wasm.Exec.Value.{HeapType, RefKind, ValType, Val}
use submilli_wasm.Exec.Cell.{
  null_ref, tag_byte, tag_eq, of_val, of_refkind, refkind_of_heap, lo, of_bytes, encode, decode,
  read_ref, ref_handle, ref_of, expected_tag,
}
use submilli_wasm.Exec.Execution.{Frame, Execution, last?}
use submilli_wasm.Exec.Stack.{ensure_operands, operand_floor, tag_at, value_at, push, pop_typed}

-- A handle that a cell can hold: a `u32` other than the null sentinel.
abbrev pub IsHandle : Option ℕ → Type 0
IsHandle none = Unit {0}
IsHandle (some h) = (h < 2 ^ 32) × (h ≢ null_ref)

-- A value of a type, its bits within the type's width.
pub data HasType : Val → ValType → Type 0 where
  i32 : (v : ℕ) → v < 2 ^ 32 → HasType (Val.i32 v) ValType.i32
  i64 : (v : ℕ) → v < 2 ^ 64 → HasType (Val.i64 v) ValType.i64
  f32 : (v : ℕ) → v < 2 ^ 32 → HasType (Val.f32 v) ValType.f32
  f64 : (v : ℕ) → v < 2 ^ 64 → HasType (Val.f64 v) ValType.f64
  reference :
      (kind : RefKind) (r : Option ℕ) (nullable : Bool) (heap : HeapType)
      → refkind_of_heap heap ≡ kind
      → IsHandle r
      → HasType (ref_of kind r) (ValType.ref nullable heap)

low_bytes : (n v : ℕ) → v < 256 ^ n → from_le_bytes (lo n (of_bytes (to_le_bytes n v))) ≡ v
unfolding lo of_bytes
low_bytes n v h =
    rw (take-append (to_le_bytes n v) _ n (sym (length-to_le_bytes n v)))
      (from_le_bytes-to_le_bytes n v h)

read_ref-ref_handle :
    (kind : RefKind) (r : Option ℕ) → IsHandle r → read_ref kind (ref_handle r) ≡ ref_of kind r
unfolding read_ref
read_ref-ref_handle kind none h = refl
read_ref-ref_handle kind (some v) h = elim (Bool-cases (v == null_ref)) [
  | inl e ↦ absurd (h.1 ((==_iff v null_ref).0 e))
  | inr e ↦ rw (read_ref, e) refl
]

handle_fits : (r : Option ℕ) → IsHandle r → ref_handle r < 256 ^ 4
handle_fits none h = omega arith
handle_fits (some v) h = omega arith

encode-ref_of :
    (kind : RefKind) (r : Option ℕ)
    → encode (ref_of kind r) ≡ of_bytes (to_le_bytes 4 (ref_handle r))
unfolding encode
encode-ref_of RefKind.func r = refl
encode-ref_of RefKind.extern r = refl
encode-ref_of RefKind.any r = refl
encode-ref_of RefKind.exn r = refl

pub decode-encode : (v : Val) (ty : ValType) → HasType v ty → decode (encode v) ty ≡ v
unfolding decode encode
decode-encode _ _ (HasType.i32 v h) = ap Val.i32 (low_bytes 4 v (omega arith))
decode-encode _ _ (HasType.i64 v h) = ap Val.i64 (low_bytes 8 v (omega arith))
decode-encode _ _ (HasType.f32 v h) = ap Val.f32 (low_bytes 4 v (omega arith))
decode-encode _ _ (HasType.f64 v h) = ap Val.f64 (low_bytes 8 v (omega arith))
decode-encode _ _ (HasType.reference kind r nullable heap e h) =
    rw (encode-ref_of kind r, decode, e, low_bytes 4 (ref_handle r) (handle_fits r h))
      (read_ref-ref_handle kind r h)

of_val-expected_tag :
    (v : Val) (ty : ValType) → HasType v ty → tag_eq (of_val v) (expected_tag ty) ≡ true
unfolding of_val expected_tag tag_byte of_refkind
of_val-expected_tag _ _ (HasType.i32 v h) = refl
of_val-expected_tag _ _ (HasType.i64 v h) = refl
of_val-expected_tag _ _ (HasType.f32 v h) = refl
of_val-expected_tag _ _ (HasType.f64 v h) = refl
of_val-expected_tag _ _ (HasType.reference RefKind.func r nullable heap e h) = rw e refl
of_val-expected_tag _ _ (HasType.reference RefKind.extern r nullable heap e h) = rw e refl
of_val-expected_tag _ _ (HasType.reference RefKind.any r nullable heap e h) = rw e refl
of_val-expected_tag _ _ (HasType.reference RefKind.exn r nullable heap e h) = rw e refl

-- The state that a push leaves.
abbrev pushed : Val → Execution → Execution
pushed v s = record s { values = s.values ++ encode v ∷ []; shadow = s.shadow ++ of_val v ∷ [] }

one_there :
    (v : Val) (s : Execution) (frame : Frame)
    → last? s.frames ≡ some frame
    → frame.operand_base ≤ length s.values
    → length s.values ≡ length s.shadow
    → ensure_operands 1 (pushed v s) ≡ ok (length s.values)
unfolding ensure_operands operand_floor
one_there v s frame top above same =
    ground (arith, length-append s.values (encode v ∷ []), length-append s.shadow (of_val v ∷ []))

-- In a frame, on stacks of equal length, a value of a type (its bits within the type's width, a
-- handle other than the null sentinel) that is pushed is popped at that type as it was, and the
-- execution is again as before: the tag matches, and the cell decodes to the value.
pub push-pop_typed :
    (v : Val) (ty : ValType) (s : Execution) (frame : Frame)
    → HasType v ty
    → last? s.frames ≡ some frame
    → frame.operand_base ≤ length s.values
    → length s.values ≡ length s.shadow
    → then_run (λ _. pop_typed ty) (push v s) ≡ (ok v, s)
unfolding push pop_typed tag_at value_at
push-pop_typed v ty s frame typed top above same =
    rw
      (
        then_run-ok,
        pop_typed,
        one_there v s frame top above same,
        then_run-ok,
        get_elem?-append_at s.shadow (of_val v ∷ []) (length s.values) 0 (omega arith),
        then_run-ok,
        of_val-expected_tag v ty typed,
        then_run-ok,
        get_elem?-append_at s.values (encode v ∷ []) (length s.values) 0 (omega arith),
        then_run-ok,
        then_run-ok,
        decode-encode v ty typed,
        take-append s.values (encode v ∷ []) (length s.values) refl,
        take-append s.shadow (of_val v ∷ []) (length s.values) same,
      )
      refl
