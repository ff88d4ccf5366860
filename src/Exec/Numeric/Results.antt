-- ===== src/Exec/Numeric/Results.antt =====
-- exec/stack.rs and exec/numeric.rs: what an integer instruction leaves on the stacks.
use submilli_wasm.Base.{
  ℕ, ◌+◌, ◌^◌, ◌≤◌, ◌<◌, ◌≡◌, refl, sym, ap, ◌∙◌, some, List, [], ◌∷◌, ◌++◌, length, take, arith,
  length-append, take-append, drop-append, set-append, get_elem?-append_at, append_assoc, le→leb,
}
use submilli_wasm.Base.Bytes.{to_le_bytes, from_le_bytes-to_le_bytes, length-to_le_bytes}
use submilli_wasm.Error.{Result, ok, err, ◌>>=◌}
use submilli_wasm.State.{then_run-ok, then_run-err}
use submilli_wasm.Exec.Cell.{
  Cell, RefTag, tag_byte, lo, of_bytes, unwrap_i32, unwrap_i64, from_i32, from_i64,
}
use submilli_wasm.Exec.Execution.{Frame, Execution, last?}
use submilli_wasm.Exec.Stack.{
  operand_floor, ensure_operands, ensure_scalar_operands, value_at, put_value, binop_cells,
  binop_cells_try,
}
use submilli_wasm.Exec.Arith.{i32_binop, i32_try_binop}

-- The stacks end in the two scalar operands `a` and `b` of the current frame.
pub record Operands (vs : List Cell) (ts : List RefTag) (a b : Cell) (s : Execution) : Type 0 where
  pub values_eq : s.values ≡ vs ++ a ∷ b ∷ []
  pub shadow_eq : s.shadow ≡ ts ++ RefTag.untagged ∷ RefTag.untagged ∷ []
  pub counts : length vs ≡ length ts
  pub frame : Frame
  pub top : last? s.frames ≡ some frame
  pub above : frame.operand_base ≤ length vs

-- `s` with the scalar `c` on top of what lay below its two operands.
abbrev pub replaced : List Cell → List RefTag → Execution → Cell → Execution
replaced vs ts s c = record s { values = vs ++ c ∷ []; shadow = ts ++ RefTag.untagged ∷ [] }

-- A result is pushed in place of the operands, and a trap leaves them.
abbrev pub settled :
    List Cell → List RefTag → Execution → Result Cell → Result (Unit {0}) × Execution
settled vs ts s (ok c) = (ok tt, replaced vs ts s c)
settled vs ts s (err e) = (err e, s)

cut {ℓ} :
    {A : Type ℓ} (xs : List A) (x y : A) (n : ℕ)
    → n ≡ length xs
    → take (n + 1) (xs ++ x ∷ y ∷ []) ≡ xs ++ x ∷ []
cut xs x y n e =
    ap (take (n + 1)) (sym (append_assoc xs (x ∷ []) (y ∷ [])))
    ∙ take-append (xs ++ x ∷ []) (y ∷ []) (n + 1) (omega (arith, length-append xs (x ∷ [])))

pub unwrap_i32-from_i32 : (x : ℕ) → x < 2 ^ 32 → unwrap_i32 (from_i32 x) ≡ x
unfolding unwrap_i32 from_i32 lo of_bytes
unwrap_i32-from_i32 x h =
    rw (take-append (to_le_bytes 4 x) _ 4 (sym (length-to_le_bytes 4 x)))
      (from_le_bytes-to_le_bytes 4 x h)

pub unwrap_i64-from_i64 : (x : ℕ) → x < 2 ^ 64 → unwrap_i64 (from_i64 x) ≡ x
unfolding unwrap_i64 from_i64 lo of_bytes
unwrap_i64-from_i64 x h =
    rw (take-append (to_le_bytes 8 x) _ 8 (sym (length-to_le_bytes 8 x)))
      (from_le_bytes-to_le_bytes 8 x h)

module _ (vs : List Cell) (ts : List RefTag) (a b : Cell) (s : Execution)
    (o : Operands vs ts a b s) where
  two_more : length s.values ≡ length vs + 2
  two_more = rw (o.values_eq) (omega (arith, length-append vs (a ∷ b ∷ [])))

  two_tags : length s.shadow ≡ length vs + 2
  two_tags =
      rw (o.shadow_eq)
        (omega (arith, o.counts, length-append ts (RefTag.untagged ∷ RefTag.untagged ∷ [])))

  operands_there : ensure_operands 2 s ≡ ok (length vs)
  unfolding ensure_operands operand_floor
  operands_there = ground (arith, two_more, two_tags, o.top, o.above)

  scalars_there : ensure_scalar_operands 2 s ≡ ok (length vs)
  unfolding ensure_scalar_operands tag_byte
  scalars_there =
      rw
        (
          operands_there,
          ensure_scalar_operands,
          two_tags,
          le→leb (length vs) (length vs + 2) (omega arith),
          o.shadow_eq,
          drop-append ts (RefTag.untagged ∷ RefTag.untagged ∷ []) (length vs) o.counts,
        )
        refl

  low_there : value_at (length vs) s ≡ ok a
  unfolding value_at
  low_there = rw (o.values_eq, get_elem?-append_at vs (a ∷ b ∷ []) (length vs) 0 (omega arith)) refl

  high_there : value_at (length vs + 1) s ≡ ok b
  unfolding value_at
  high_there =
      rw (o.values_eq, get_elem?-append_at vs (a ∷ b ∷ []) (length vs + 1) 1 (omega arith)) refl

  pub binop_cells_lem :
      (f : Cell → Cell → Cell) → binop_cells f s ≡ (ok tt, replaced vs ts s (f a b))
  unfolding binop_cells put_value
  binop_cells_lem f =
      rw
        (
          binop_cells,
          scalars_there,
          then_run-ok,
          low_there,
          then_run-ok,
          high_there,
          then_run-ok,
          then_run-ok,
          o.values_eq,
          set-append vs (b ∷ []) (length vs) a (f a b) refl,
          cut vs (f a b) b (length vs) refl,
          o.shadow_eq,
          cut ts RefTag.untagged RefTag.untagged (length vs) o.counts,
        )
        refl

  binop_cells_try_lem :
      (f : Cell → Cell → Result Cell) (r : Result Cell)
      → f a b ≡ r
      → binop_cells_try f s ≡ settled vs ts s r
  unfolding binop_cells_try put_value
  binop_cells_try_lem f (ok c) e =
      rw
        (
          binop_cells_try,
          scalars_there,
          then_run-ok,
          low_there,
          then_run-ok,
          high_there,
          then_run-ok,
          e,
          then_run-ok,
          then_run-ok,
          o.values_eq,
          set-append vs (b ∷ []) (length vs) a c refl,
          cut vs c b (length vs) refl,
          o.shadow_eq,
          cut ts RefTag.untagged RefTag.untagged (length vs) o.counts,
        )
        refl
  binop_cells_try_lem f (err x) e =
      rw
        (
          binop_cells_try, scalars_there, then_run-ok, low_there, then_run-ok, high_there,
          then_run-ok, e, then_run-err,
        )
        refl

-- On a frame whose two top operands are the scalars `x` and `y` below `2 ^ 32`, an i32 operation
-- `f` puts `f x y` with a scalar tag in their place and leaves all else as it was.
pub i32_binop_lem :
    (f : ℕ → ℕ → ℕ) (vs : List Cell) (ts : List RefTag) (x y : ℕ) (s : Execution)
    → x < 2 ^ 32
    → y < 2 ^ 32
    → Operands vs ts (from_i32 x) (from_i32 y) s
    → i32_binop f s ≡ (ok tt, replaced vs ts s (from_i32 (f x y)))
unfolding i32_binop
i32_binop_lem f vs ts x y s lx ly o =
    binop_cells_lem vs ts _ _ s o _ ∙ rw (unwrap_i32-from_i32 x lx, unwrap_i32-from_i32 y ly) refl

-- On a frame whose two top operands are the scalars `x` and `y` below `2 ^ 32`, a fallible i32
-- operation `f` puts the value of `f x y` with a scalar tag in their place, and if `f x y` is an
-- error returns that error with the execution as it was.
pub i32_try_binop_lem :
    (f : ℕ → ℕ → Result ℕ) (vs : List Cell) (ts : List RefTag) (x y : ℕ) (s : Execution)
    → x < 2 ^ 32
    → y < 2 ^ 32
    → Operands vs ts (from_i32 x) (from_i32 y) s
    → i32_try_binop f s ≡ settled vs ts s (f x y >>= λ v. ok (from_i32 v))
unfolding i32_try_binop
i32_try_binop_lem f vs ts x y s lx ly o =
    binop_cells_try_lem vs ts _ _ s o _ _
      (rw (unwrap_i32-from_i32 x lx, unwrap_i32-from_i32 y ly) refl)
