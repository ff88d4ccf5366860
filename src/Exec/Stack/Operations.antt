-- ===== src/Exec/Stack/Operations.antt =====
-- exec/stack.rs: the operations, one by one, at a place of the frame.
use submilli_wasm.Base.{ℕ, ◌+◌, ◌≤◌, ◌≡◌, ◌≢◌, Bool, List, arith, length, length-set}
use submilli_wasm.Error.{Result, ok, err, panicked}
use submilli_wasm.State.{then_run, then_run-ok, then_run-err, pure, modify}
use submilli_wasm.Exec.Value.{Val}
use submilli_wasm.Exec.Cell.{Cell, RefTag, unwrap_i32, unwrap_i64, unwrap_f32, unwrap_f64}
use submilli_wasm.Exec.Execution.{Execution, truncate}
use submilli_wasm.Exec.Stack.{
  put_value, pop_scalar, push_scalar, push_i32, push_i64, binop_cells, binop_cells_try, unop_cell,
  pop, pop_tagged, push, push_cell, top_i32, top_cell, pop_i32, pop_i64, pop_f32, pop_f64,
  push_f32_bits, push_f64_bits, pop_i32_pair, pop_index, push_index,
}
use submilli_wasm.Exec.Stack.Sound.{
  Place, Ready, Good, Sound, ensure_operands-Ensured, ensure_scalar_operands-Ensured, Ensured-then,
  value_at-then, tag_at-then, Sound-then, truncate-Ready, append-Ready, put_value-Ready,
}

module _ (p : Place) where
  pub pure-Sound {ℓ} : {A : Type ℓ} (a : A) → Sound p (pure a)
  pure-Sound a s r = (λ q. cc, r)

  truncate-pure {ℓ} :
      {A : Type ℓ} (a : A) (b : ℕ) (s : Execution)
      → Ready p s
      → p.floor ≤ b
      → b ≤ length s.values
      → Good p (then_run (λ _. pure a) (modify (truncate b) s))
  unfolding then_run
  truncate-pure a b s r low high = (λ q. cc, truncate-Ready p b s r low high)

  pub pop_scalar-Sound : Sound p pop_scalar
  unfolding pop_scalar
  pop_scalar-Sound s r =
      Ensured-then p _ r (ensure_scalar_operands-Ensured p 1 s r)
        λ b e le. value_at-then p _ b s (omega arith) λ c _. truncate-pure c b s r le (omega arith)

  pub pop-Sound : Sound p pop
  unfolding pop
  pop-Sound s r =
      Ensured-then p _ r (ensure_operands-Ensured p 1 s r)
        λ b e le. value_at-then p _ b s (omega arith) λ c _. truncate-pure c b s r le (omega arith)

  pub pop_tagged-Sound : Sound p pop_tagged
  unfolding pop_tagged
  pop_tagged-Sound s r = Ensured-then p _ r (ensure_operands-Ensured p 1 s r) λ b e le.
      value_at-then p _ b s (omega arith) λ c _.
        tag_at-then p _ b s r (omega arith) λ t _. truncate-pure (c, t) b s r le (omega arith)

  pub push_scalar-Sound : (bytes : List ℕ) → Sound p (push_scalar bytes)
  unfolding push_scalar
  push_scalar-Sound bytes s r = (λ q. cc, append-Ready p _ _ s r)

  pub push-Sound : (v : Val) → Sound p (push v)
  unfolding push
  push-Sound v s r = (λ q. cc, append-Ready p _ _ s r)

  pub push_cell-Sound : (c : Cell) (t : RefTag) → Sound p (push_cell c t)
  unfolding push_cell
  push_cell-Sound c t s r = (λ q. cc, append-Ready p c t s r)

  -- The result written over the lower operand, and the upper one dropped.
  replace_pair :
      (b : ℕ) (c : Cell) (s : Execution)
      → Ready p s
      → b + 2 ≡ length s.values
      → p.floor ≤ b
      → Good p (then_run (λ _. modify (truncate (b + 1))) (modify (put_value b c) s))
  unfolding then_run put_value
  replace_pair b c s r e le =
      let r' : Ready p (put_value b c s) = put_value-Ready p b c s r (omega (arith, p.ordered)) in
      (
        λ q. cc,
        truncate-Ready p (b + 1) _ r' (omega arith) (omega (arith, length-set s.values b c)),
      )

  pub binop_cells-Sound : (f : Cell → Cell → Cell) → Sound p (binop_cells f)
  unfolding binop_cells
  binop_cells-Sound f s r = Ensured-then p _ r (ensure_scalar_operands-Ensured p 2 s r) λ b e le.
      value_at-then p _ b s (omega arith)
        λ x _. value_at-then p _ (b + 1) s (omega arith) λ y _. replace_pair b (f x y) s r e le

  pub binop_cells_try-Sound :
      (f : Cell → Cell → Result Cell)
      → ((a b : Cell) → f a b ≢ err panicked)
      → Sound p (binop_cells_try f)
  unfolding binop_cells_try
  binop_cells_try-Sound f safe s r =
      Ensured-then p _ r (ensure_scalar_operands-Ensured p 2 s r) λ b e le.
        value_at-then p _ b s (omega arith) λ x _.
          value_at-then p _ (b + 1) s (omega arith) λ y _. lifted (f x y) (safe x y) b s r e le
    where
      lifted :
          (q : Result Cell)
          → q ≢ err panicked
          → (b : ℕ) (s : Execution) → Ready p s
          → b + 2 ≡ length s.values
          → p.floor ≤ b
          → Good p (
              then_run
                (λ c s. then_run (λ _. modify (truncate (b + 1))) (modify (put_value b c) s))
                (q, s))
      lifted (ok c) h b s r e le = rw then_run-ok (replace_pair b c s r e le)
      lifted (err x) h b s r e le = rw then_run-err (λ k. h (cc), r)

  pub unop_cell-Sound : (f : Cell → Cell) → Sound p (unop_cell f)
  unfolding unop_cell
  unop_cell-Sound f s r = Ensured-then p _ r (ensure_scalar_operands-Ensured p 1 s r) λ b e le.
      value_at-then p _ b s (omega arith)
        λ x _. (λ q. cc, put_value-Ready p b (f x) s r (omega (arith, p.ordered)))

  pub top_i32-Sound : Sound p top_i32
  unfolding top_i32
  top_i32-Sound s r =
      Ensured-then p _ r (ensure_scalar_operands-Ensured p 1 s r)
        λ b e le. value_at-then p _ b s (omega arith) λ c _. pure-Sound (unwrap_i32 c) s r

  pub top_cell-Sound : Sound p top_cell
  unfolding top_cell
  top_cell-Sound s r = Ensured-then p _ r (ensure_operands-Ensured p 1 s r) λ b e le.
      value_at-then p _ b s (omega arith)
        λ c _. tag_at-then p _ b s r (omega arith) λ t _. pure-Sound (c, t) s r

  pub pop_i32-Sound : Sound p pop_i32
  unfolding pop_i32
  pop_i32-Sound s r = Sound-then p pop_scalar _ s pop_scalar-Sound r λ c. pure-Sound (unwrap_i32 c)

  pub pop_i64-Sound : Sound p pop_i64
  unfolding pop_i64
  pop_i64-Sound s r = Sound-then p pop_scalar _ s pop_scalar-Sound r λ c. pure-Sound (unwrap_i64 c)

  pub pop_index-Sound : (is_64 : Bool) → Sound p (pop_index is_64)
  unfolding pop_index
  pop_index-Sound is_64 s r = Sound-then p pop_scalar _ s pop_scalar-Sound r λ c. pure-Sound _

  pub push_i32-Sound : (v : ℕ) → Sound p (push_i32 v)
  unfolding push_i32
  push_i32-Sound v = push_scalar-Sound _

  pub push_i64-Sound : (v : ℕ) → Sound p (push_i64 v)
  unfolding push_i64
  push_i64-Sound v = push_scalar-Sound _

  pub pop_f32-Sound : Sound p pop_f32
  unfolding pop_f32
  pop_f32-Sound s r = Sound-then p pop_scalar _ s pop_scalar-Sound r λ c. pure-Sound (unwrap_f32 c)

  pub pop_f64-Sound : Sound p pop_f64
  unfolding pop_f64
  pop_f64-Sound s r = Sound-then p pop_scalar _ s pop_scalar-Sound r λ c. pure-Sound (unwrap_f64 c)

  pub push_f32_bits-Sound : (v : ℕ) → Sound p (push_f32_bits v)
  unfolding push_f32_bits
  push_f32_bits-Sound v = push_scalar-Sound _

  pub push_f64_bits-Sound : (v : ℕ) → Sound p (push_f64_bits v)
  unfolding push_f64_bits
  push_f64_bits-Sound v = push_scalar-Sound _

  pub push_index-Sound : (is_64 : Bool) (v : ℕ) → Sound p (push_index is_64 v)
  unfolding push_index
  push_index-Sound is_64 v = push-Sound _

  pub pop_i32_pair-Sound : Sound p pop_i32_pair
  unfolding pop_i32_pair
  pop_i32_pair-Sound s r = Ensured-then p _ r (ensure_scalar_operands-Ensured p 2 s r) λ b e le.
      value_at-then p _ b s (omega arith) λ x _.
        value_at-then p _ (b + 1) s (omega arith)
          λ y _. truncate-pure (unwrap_i32 x, unwrap_i32 y) b s r le (omega arith)
