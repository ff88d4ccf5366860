-- ===== src/Exec/Numeric.antt =====
-- exec/numeric.rs: the integer instructions, their conversions and the reinterpretations. The
-- floating-point instructions are left out: the language has no floats.
pub mod Sound
pub mod Results
use submilli_wasm.Base.{ℕ, ◌%◌, ◌^◌, ◌+◌, bit_and, bit_or, bit_xor, not, ltb, leb, ◌==◌}
use submilli_wasm.State.{M, ◌>>=◌}
use submilli_wasm.Exec.Arith.{
  bit, lt_s, wrapping_add, wrapping_sub, wrapping_mul, div_s_i32, div_s_i64, div_u, rem_s, rem_u,
  shl, shr_u, shr_s, rotl, rotr, leading_zeros, trailing_zeros, count_ones, extend_s, i32_binop,
  i32_unop, i32_relop, i32_try_binop, i64_binop, i64_unop, i64_relop, i64_try_binop,
}
use submilli_wasm.Exec.Execution.{Execution}
use submilli_wasm.Exec.Stack.{
  pop_i32, pop_i64, pop_f32, pop_f64, push_i32, push_i64, push_f32_bits, push_f64_bits,
}

-- The integer part of `Op` of module/op.rs.
pub data NumericOp : Type 0 where
  i32_eqz i32_eq i32_ne i32_lt_s i32_lt_u i32_gt_s i32_gt_u i32_le_s i32_le_u : NumericOp
  i32_ge_s i32_ge_u i32_clz i32_ctz i32_popcnt i32_add i32_sub i32_mul i32_div_s : NumericOp
  i32_div_u i32_rem_s i32_rem_u i32_and i32_or i32_xor i32_shl i32_shr_s i32_shr_u : NumericOp
  i32_rotl i32_rotr i64_eqz i64_eq i64_ne i64_lt_s i64_lt_u i64_gt_s i64_gt_u : NumericOp
  i64_le_s i64_le_u i64_ge_s i64_ge_u i64_clz i64_ctz i64_popcnt i64_add i64_sub : NumericOp
  i64_mul i64_div_s i64_div_u i64_rem_s i64_rem_u i64_and i64_or i64_xor i64_shl : NumericOp
  i64_shr_s i64_shr_u i64_rotl i64_rotr i32_wrap_i64 i64_extend_i32_s : NumericOp
  i64_extend_i32_u f32_reinterpret_i32 f64_reinterpret_i64 i32_reinterpret_f32 : NumericOp
  i64_reinterpret_f64 i32_extend8_s i32_extend16_s i64_extend8_s i64_extend16_s : NumericOp
  i64_extend32_s : NumericOp

unfoldable pub exec_numeric : NumericOp → M Execution (Unit {0})
exec_numeric i32_eqz = i32_unop λ a. bit (a == 0)
exec_numeric i32_eq = i32_relop λ a b. a == b
exec_numeric i32_ne = i32_relop λ a b. not (a == b)
exec_numeric i32_lt_s = i32_relop (lt_s (2 ^ 31))
exec_numeric i32_lt_u = i32_relop ltb
exec_numeric i32_gt_s = i32_relop λ a b. lt_s (2 ^ 31) b a
exec_numeric i32_gt_u = i32_relop λ a b. ltb b a
exec_numeric i32_le_s = i32_relop λ a b. not (lt_s (2 ^ 31) b a)
exec_numeric i32_le_u = i32_relop leb
exec_numeric i32_ge_s = i32_relop λ a b. not (lt_s (2 ^ 31) a b)
exec_numeric i32_ge_u = i32_relop λ a b. leb b a
exec_numeric i32_clz = i32_unop (leading_zeros 32)
exec_numeric i32_ctz = i32_unop (trailing_zeros 32)
exec_numeric i32_popcnt = i32_unop (count_ones 32)
exec_numeric i32_add = i32_binop (wrapping_add 32)
exec_numeric i32_sub = i32_binop (wrapping_sub 32)
exec_numeric i32_mul = i32_binop (wrapping_mul 32)
exec_numeric i32_div_s = i32_try_binop div_s_i32
exec_numeric i32_div_u = i32_try_binop div_u
exec_numeric i32_rem_s = i32_try_binop (rem_s (2 ^ 31))
exec_numeric i32_rem_u = i32_try_binop rem_u
exec_numeric i32_and = i32_binop bit_and
exec_numeric i32_or = i32_binop bit_or
exec_numeric i32_xor = i32_binop bit_xor
exec_numeric i32_shl = i32_binop (shl 32)
exec_numeric i32_shr_s = i32_binop (shr_s 32)
exec_numeric i32_shr_u = i32_binop (shr_u 32)
exec_numeric i32_rotl = i32_binop (rotl 32)
exec_numeric i32_rotr = i32_binop (rotr 32)
exec_numeric i64_eqz = do a ← pop_i64; push_i32 (bit (a == 0))
exec_numeric i64_eq = i64_relop λ a b. a == b
exec_numeric i64_ne = i64_relop λ a b. not (a == b)
exec_numeric i64_lt_s = i64_relop (lt_s (2 ^ 63))
exec_numeric i64_lt_u = i64_relop ltb
exec_numeric i64_gt_s = i64_relop λ a b. lt_s (2 ^ 63) b a
exec_numeric i64_gt_u = i64_relop λ a b. ltb b a
exec_numeric i64_le_s = i64_relop λ a b. not (lt_s (2 ^ 63) b a)
exec_numeric i64_le_u = i64_relop leb
exec_numeric i64_ge_s = i64_relop λ a b. not (lt_s (2 ^ 63) a b)
exec_numeric i64_ge_u = i64_relop λ a b. leb b a
exec_numeric i64_clz = i64_unop (leading_zeros 64)
exec_numeric i64_ctz = i64_unop (trailing_zeros 64)
exec_numeric i64_popcnt = i64_unop (count_ones 64)
exec_numeric i64_add = i64_binop (wrapping_add 64)
exec_numeric i64_sub = i64_binop (wrapping_sub 64)
exec_numeric i64_mul = i64_binop (wrapping_mul 64)
exec_numeric i64_div_s = i64_try_binop div_s_i64
exec_numeric i64_div_u = i64_try_binop div_u
exec_numeric i64_rem_s = i64_try_binop (rem_s (2 ^ 63))
exec_numeric i64_rem_u = i64_try_binop rem_u
exec_numeric i64_and = i64_binop bit_and
exec_numeric i64_or = i64_binop bit_or
exec_numeric i64_xor = i64_binop bit_xor
exec_numeric i64_shl = i64_binop (shl 64)
exec_numeric i64_shr_s = i64_binop (shr_s 64)
exec_numeric i64_shr_u = i64_binop (shr_u 64)
exec_numeric i64_rotl = i64_binop (rotl 64)
exec_numeric i64_rotr = i64_binop (rotr 64)
exec_numeric i32_wrap_i64 = do x ← pop_i64; push_i32 (x % 2 ^ 32)
exec_numeric i64_extend_i32_s = do x ← pop_i32; push_i64 (extend_s (2 ^ 31) 64 x)
exec_numeric i64_extend_i32_u = do x ← pop_i32; push_i64 x
exec_numeric f32_reinterpret_i32 = do x ← pop_i32; push_f32_bits x
exec_numeric f64_reinterpret_i64 = do x ← pop_i64; push_f64_bits x
exec_numeric i32_reinterpret_f32 = do x ← pop_f32; push_i32 x
exec_numeric i64_reinterpret_f64 = do x ← pop_f64; push_i64 x
exec_numeric i32_extend8_s = i32_unop (extend_s (2 ^ 7) 32)
exec_numeric i32_extend16_s = i32_unop (extend_s (2 ^ 15) 32)
exec_numeric i64_extend8_s = i64_unop (extend_s (2 ^ 7) 64)
exec_numeric i64_extend16_s = i64_unop (extend_s (2 ^ 15) 64)
exec_numeric i64_extend32_s = i64_unop (extend_s (2 ^ 31) 64)
