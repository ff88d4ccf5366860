-- ===== src/Exec/Numeric/Sound.antt =====
-- exec/numeric.rs: what the integer instructions keep.
use submilli_wasm.Base.{ℕ, ◌≢◌, Bool, arith}
use submilli_wasm.Error.{Result, ok, err, panicked, ◌>>=◌}
use submilli_wasm.State.{M, ◌>>=◌ as then_do}
use submilli_wasm.Exec.Execution.{Execution}
use submilli_wasm.Exec.Cell.{Cell, from_i32, from_i64, unwrap_i32, unwrap_i64}
use submilli_wasm.Exec.Arith.{
  nz, quotient_u, quotient_s, remainder_u, remainder_s, div_s_i32, div_s_i64, div_u, rem_s, rem_u,
  i32_binop, i32_unop, i32_relop, i32_try_binop, i64_binop, i64_unop, i64_relop, i64_try_binop,
}
use submilli_wasm.Exec.Numeric.{NumericOp, exec_numeric}
use submilli_wasm.Exec.Stack.Sound.{Place, Ready, Sound, Sound-then}
use submilli_wasm.Exec.Stack.Operations.{
  binop_cells-Sound, binop_cells_try-Sound, unop_cell-Sound, pop_i32-Sound, pop_i64-Sound,
  push_i32-Sound, push_i64-Sound, push_f32_bits-Sound, push_f64_bits-Sound, pop_f32-Sound,
  pop_f64-Sound,
}
use submilli_wasm.Exec.Stack.{pop_i32, pop_i64, pop_f32, pop_f64}

div_s_i32-safe : (a b : ℕ) → div_s_i32 a b ≢ err panicked
unfolding div_s_i32 quotient_s
div_s_i32-safe a b = ground arith

div_s_i64-safe : (a b : ℕ) → div_s_i64 a b ≢ err panicked
unfolding div_s_i64 quotient_s
div_s_i64-safe a b = ground arith

div_u-safe : (a b : ℕ) → div_u a b ≢ err panicked
unfolding div_u nz quotient_u
div_u-safe a b = ground arith

rem_s-safe : (half a b : ℕ) → rem_s half a b ≢ err panicked
unfolding rem_s nz remainder_s
rem_s-safe half a b = ground arith

rem_u-safe : (a b : ℕ) → rem_u a b ≢ err panicked
unfolding rem_u nz remainder_u
rem_u-safe a b = ground arith

mapped-safe :
    (r : Result ℕ) (f : ℕ → Cell) → r ≢ err panicked → (r >>= λ v. ok (f v)) ≢ err panicked
mapped-safe (ok v) f h = λ q. cc
mapped-safe (err e) f h = λ q. h (cc)

module _ (p : Place) where
  i32_binop-Sound : (f : ℕ → ℕ → ℕ) → Sound p (i32_binop f)
  unfolding i32_binop
  i32_binop-Sound f = binop_cells-Sound p _

  i64_binop-Sound : (f : ℕ → ℕ → ℕ) → Sound p (i64_binop f)
  unfolding i64_binop
  i64_binop-Sound f = binop_cells-Sound p _

  i32_relop-Sound : (f : ℕ → ℕ → Bool) → Sound p (i32_relop f)
  unfolding i32_relop
  i32_relop-Sound f = binop_cells-Sound p _

  i64_relop-Sound : (f : ℕ → ℕ → Bool) → Sound p (i64_relop f)
  unfolding i64_relop
  i64_relop-Sound f = binop_cells-Sound p _

  i32_unop-Sound : (f : ℕ → ℕ) → Sound p (i32_unop f)
  unfolding i32_unop
  i32_unop-Sound f = unop_cell-Sound p _

  i64_unop-Sound : (f : ℕ → ℕ) → Sound p (i64_unop f)
  unfolding i64_unop
  i64_unop-Sound f = unop_cell-Sound p _

  i32_try_binop-Sound :
      (f : ℕ → ℕ → Result ℕ) → ((a b : ℕ) → f a b ≢ err panicked) → Sound p (i32_try_binop f)
  unfolding i32_try_binop
  i32_try_binop-Sound f h =
      binop_cells_try-Sound p _
        λ a b. mapped-safe (f (unwrap_i32 a) (unwrap_i32 b)) from_i32 (h _ _)

  i64_try_binop-Sound :
      (f : ℕ → ℕ → Result ℕ) → ((a b : ℕ) → f a b ≢ err panicked) → Sound p (i64_try_binop f)
  unfolding i64_try_binop
  i64_try_binop-Sound f h =
      binop_cells_try-Sound p _
        λ a b. mapped-safe (f (unwrap_i64 a) (unwrap_i64 b)) from_i64 (h _ _)

  converted :
      {A : Type 0} (m : M Execution A) (f : A → M Execution (Unit {0}))
      → Sound p m
      → ((a : A) → Sound p (f a))
      → Sound p (then_do m f)
  converted m f h k s r = Sound-then p m f s h r k

  ruleset numeric_rules = (
    i32_binop-Sound, i64_binop-Sound, i32_relop-Sound, i64_relop-Sound, i32_unop-Sound,
    i64_unop-Sound, i32_try_binop-Sound, i64_try_binop-Sound, div_s_i32-safe, div_s_i64-safe,
    div_u-safe, rem_s-safe, rem_u-safe,
  )

  -- No integer instruction panics, whatever the operands and the frame; each leaves the value and
  -- tag stacks equally long, the frames as they were, and all below the frame untouched.
  pub exec_numeric-Sound : (op : NumericOp) → Sound p (exec_numeric op)
  unfolding exec_numeric
  exec_numeric-Sound NumericOp.i32_eqz = i32_unop-Sound _
  exec_numeric-Sound NumericOp.i64_eqz =
      converted pop_i64 _ (pop_i64-Sound p) λ a. push_i32-Sound p _
  exec_numeric-Sound NumericOp.i32_wrap_i64 =
      converted pop_i64 _ (pop_i64-Sound p) λ a. push_i32-Sound p _
  exec_numeric-Sound NumericOp.i64_extend_i32_s =
      converted pop_i32 _ (pop_i32-Sound p) λ a. push_i64-Sound p _
  exec_numeric-Sound NumericOp.i64_extend_i32_u =
      converted pop_i32 _ (pop_i32-Sound p) λ a. push_i64-Sound p _
  exec_numeric-Sound NumericOp.f32_reinterpret_i32 =
      converted pop_i32 _ (pop_i32-Sound p) λ a. push_f32_bits-Sound p _
  exec_numeric-Sound NumericOp.f64_reinterpret_i64 =
      converted pop_i64 _ (pop_i64-Sound p) λ a. push_f64_bits-Sound p _
  exec_numeric-Sound NumericOp.i32_reinterpret_f32 =
      converted pop_f32 _ (pop_f32-Sound p) λ a. push_i32-Sound p _
  exec_numeric-Sound NumericOp.i64_reinterpret_f64 =
      converted pop_f64 _ (pop_f64-Sound p) λ a. push_i64-Sound p _
  exec_numeric-Sound _ = search numeric_rules

-- At any place of a frame no integer instruction panics, whatever the operands, on a division by
-- zero or an overflow neither; each leaves the two stacks equally long and not below the frame's
-- floor, and the frames, the re-entry count and all below the frame's locals as they were, errors
-- included.
pub exec_numeric_no_panic :
    (p : Place) (op : NumericOp) (s : Execution)
    → Ready p s
    → ((exec_numeric op s).0 ≢ err panicked) × Ready p (exec_numeric op s).1
exec_numeric_no_panic p op s r = exec_numeric-Sound p op s r
