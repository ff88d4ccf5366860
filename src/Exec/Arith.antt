-- ===== src/Exec/Arith.antt =====
-- exec/arith.rs and the integer operations of Rust that exec/numeric.rs calls.
-- An `i32` or `u32` is its bit pattern, and so is an `i64` or `u64`; the helpers take the half of
-- the number of patterns, 2 ^ 31 or 2 ^ 63, or the width.
use submilli_wasm.Base.{
  ℕ, zero, suc, ◌+◌, ◌-◌, ◌*◌, ◌/◌, ◌%◌, ◌^◌, Bool, true, false, ◌&&◌, ◌||◌, ltb, ◌==◌,
  if◌then◌else◌,
}
use submilli_wasm.Base.Int.{to_int, of_int, div_int, rem_int, shr_int, ltb_ℤ}
use submilli_wasm.Error.{
  Result, ok, err, trap, panicked, integer_division_by_zero, integer_overflow, ◌>>=◌, ◌>>◌,
}
use submilli_wasm.State.{M}
use submilli_wasm.Exec.Cell.{unwrap_i32, unwrap_i64, from_i32, from_i64}
use submilli_wasm.Exec.Execution.{Execution}
use submilli_wasm.Exec.Stack.{binop_cells, binop_cells_try, unop_cell}

unfoldable pub nz : ℕ → Result (Unit {0})
nz b = if b == 0 then err (trap integer_division_by_zero) else ok tt

-- The division of Rust's unsigned integers, which panics on 0, and so its remainder.
unfoldable pub quotient_u : ℕ → ℕ → Result ℕ
quotient_u a b = if b == 0 then err panicked else ok (a / b)

unfoldable pub remainder_u : ℕ → ℕ → Result ℕ
remainder_u a b = if b == 0 then err panicked else ok (a % b)

-- The division of Rust's signed integers, which panics on 0 and on `MIN / -1`.
unfoldable pub quotient_s : ℕ → ℕ → ℕ → Result ℕ
quotient_s half a b =
    if b == 0 || (a == half && b == 2 * half - 1)
    then err panicked
    else ok (of_int half (div_int (to_int half a) (to_int half b)))

-- `wrapping_rem`, which panics on 0 only.
unfoldable pub remainder_s : ℕ → ℕ → ℕ → Result ℕ
remainder_s half a b =
    if b == 0 then err panicked else ok (of_int half (rem_int (to_int half a) (to_int half b)))

unfoldable pub div_s_i32 : ℕ → ℕ → Result ℕ
div_s_i32 a b =
    if b == 0
    then err (trap integer_division_by_zero)
    else if a == 2 ^ 31 && b == 2 ^ 32 - 1
    then err (trap integer_overflow)
    else quotient_s (2 ^ 31) a b

unfoldable pub div_s_i64 : ℕ → ℕ → Result ℕ
div_s_i64 a b =
    if b == 0
    then err (trap integer_division_by_zero)
    else if a == 2 ^ 63 && b == 2 ^ 64 - 1
    then err (trap integer_overflow)
    else quotient_s (2 ^ 63) a b

-- `nz(b).map(|()| …)` on both readings.
unfoldable pub rem_s : ℕ → ℕ → ℕ → Result ℕ
rem_s half a b = do nz b; remainder_s half a b

unfoldable pub div_u : ℕ → ℕ → Result ℕ
div_u a b = do nz b; quotient_u a b

unfoldable pub rem_u : ℕ → ℕ → Result ℕ
rem_u a b = do nz b; remainder_u a b

abbrev pub bit : Bool → ℕ
bit true = 1
bit false = 0

abbrev pub lt_s : ℕ → ℕ → ℕ → Bool
lt_s half a b = ltb_ℤ (to_int half a) (to_int half b)

abbrev pub wrapping_add : ℕ → ℕ → ℕ → ℕ
wrapping_add w a b = (a + b) % 2 ^ w

abbrev pub wrapping_sub : ℕ → ℕ → ℕ → ℕ
wrapping_sub w a b = (a + 2 ^ w - b) % 2 ^ w

abbrev pub wrapping_mul : ℕ → ℕ → ℕ → ℕ
wrapping_mul w a b = a * b % 2 ^ w

-- A shift count is taken modulo the width.
abbrev pub shl : ℕ → ℕ → ℕ → ℕ
shl w a b = a * 2 ^ (b % w) % 2 ^ w

abbrev pub shr_u : ℕ → ℕ → ℕ → ℕ
shr_u w a b = a / 2 ^ (b % w)

abbrev pub shr_s : ℕ → ℕ → ℕ → ℕ
shr_s w a b = of_int (2 ^ (w - 1)) (shr_int (2 ^ (b % w)) (to_int (2 ^ (w - 1)) a))

abbrev pub rotl : ℕ → ℕ → ℕ → ℕ
rotl w a b = (a * 2 ^ (b % w) + a / 2 ^ (w - b % w)) % 2 ^ w

abbrev pub rotr : ℕ → ℕ → ℕ → ℕ
rotr w a b = (a / 2 ^ (b % w) + a * 2 ^ (w - b % w)) % 2 ^ w

unfoldable pub leading_zeros : ℕ → ℕ → ℕ
leading_zeros zero a = 0
leading_zeros (suc w) a = if ltb a (2 ^ w) then leading_zeros w a + 1 else 0

unfoldable pub trailing_zeros : ℕ → ℕ → ℕ
trailing_zeros zero a = 0
trailing_zeros (suc w) a = if a % 2 == 0 then trailing_zeros w (a / 2) + 1 else 0

unfoldable pub count_ones : ℕ → ℕ → ℕ
count_ones zero a = 0
count_ones (suc w) a = a % 2 + count_ones w (a / 2)

-- The low `2 * half` values of a pattern, sign-extended to `2 ^ w`.
abbrev pub extend_s : ℕ → ℕ → ℕ → ℕ
extend_s half w a =
    if ltb (a % (2 * half)) half then a % (2 * half) else a % (2 * half) + 2 ^ w - 2 * half

unfoldable pub i32_binop : (ℕ → ℕ → ℕ) → M Execution (Unit {0})
i32_binop f = binop_cells λ a b. from_i32 (f (unwrap_i32 a) (unwrap_i32 b))

unfoldable pub i32_unop : (ℕ → ℕ) → M Execution (Unit {0})
i32_unop f = unop_cell λ a. from_i32 (f (unwrap_i32 a))

unfoldable pub i32_relop : (ℕ → ℕ → Bool) → M Execution (Unit {0})
i32_relop f = binop_cells λ a b. from_i32 (bit (f (unwrap_i32 a) (unwrap_i32 b)))

unfoldable pub i32_try_binop : (ℕ → ℕ → Result ℕ) → M Execution (Unit {0})
i32_try_binop f = binop_cells_try λ a b. do v ← f (unwrap_i32 a) (unwrap_i32 b); ok (from_i32 v)

unfoldable pub i64_binop : (ℕ → ℕ → ℕ) → M Execution (Unit {0})
i64_binop f = binop_cells λ a b. from_i64 (f (unwrap_i64 a) (unwrap_i64 b))

unfoldable pub i64_unop : (ℕ → ℕ) → M Execution (Unit {0})
i64_unop f = unop_cell λ a. from_i64 (f (unwrap_i64 a))

unfoldable pub i64_relop : (ℕ → ℕ → Bool) → M Execution (Unit {0})
i64_relop f = binop_cells λ a b. from_i32 (bit (f (unwrap_i64 a) (unwrap_i64 b)))

unfoldable pub i64_try_binop : (ℕ → ℕ → Result ℕ) → M Execution (Unit {0})
i64_try_binop f = binop_cells_try λ a b. do v ← f (unwrap_i64 a) (unwrap_i64 b); ok (from_i64 v)
