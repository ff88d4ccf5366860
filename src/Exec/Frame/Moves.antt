-- ===== src/Exec/Frame/Moves.antt =====
-- exec/frame.rs: what a branch and a return leave on the two stacks, and what they refuse.
use submilli_wasm.Base.{
  ℕ, ◌+◌, ◌-◌, ◌≤◌, ◌<◌, ◌≡◌, ◌≢◌, ◌⊎◌, refl, none, some, Bool, true, false, List, [], ◌∷◌, ◌++◌,
  length, take, drop, slice, arith, length-append, length-take, length-drop, take-append, take_all,
  append_assoc, ◌==◌, ==-refl, ge→ltb, gt→leb, le→leb, ap, ◌∙◌, inl, inr,
}
use submilli_wasm.State.{then_run-ok}
use submilli_wasm.Error.{Result, ok, err, Error, panicked, Result-cases}
use submilli_wasm.Word.{u64_max, checked_add, checked_sub, checked_add_fits}
use submilli_wasm.Exec.Execution.{Delimiter, BranchTarget, Frame, Execution, last?}
use submilli_wasm.Exec.Frame.{
  move_down, move_stacks, index_below, branch_places, move_results, take_branch, return_base,
  do_return,
}

pub last?-append_one {ℓ} : {A : Type ℓ} (xs : List A) (a : A) → last? (xs ++ a ∷ []) ≡ some a
last?-append_one [] a = refl
last?-append_one (x ∷ []) a = refl
last?-append_one (x ∷ y ∷ xs) a = last?-append_one (y ∷ xs) a

-- `copy_within` and `truncate` together cut out the elements from `dst` to `src`.
pub move_down_lem {ℓ} :
    {A : Type ℓ} (src dst : ℕ) (xs : List A)
    → dst ≤ src
    → src ≤ length xs
    → move_down src dst xs ≡ ok (take dst xs ++ drop src xs)
unfolding move_down
move_down_lem src dst xs low high =
    let chunk : slice xs src (length xs - src) ≡ drop src xs =
      take_all (length xs - src) (drop src xs) (omega (arith, length-drop src xs)) in
    rw (ge→ltb (length xs) src high, ge→ltb src dst low, chunk, ← append_assoc)
      (ap ok (
        take-append (take dst xs ++ drop src xs) _ _ (
          omega (
            arith,
            length-append (take dst xs) (drop src xs),
            length-take dst xs,
            length-drop src xs,
          ))))

-- Both stacks are cut in the same way.
pub move_stacks_lem :
    (src dst : ℕ) (s : Execution)
    → length s.values ≡ length s.shadow
    → dst ≤ src
    → src ≤ length s.values
    → move_stacks src dst s ≡ (
      ok tt,
      record s {
        values = take dst s.values ++ drop src s.values;
        shadow = take dst s.shadow ++ drop src s.shadow;
      },
    )
unfolding move_stacks
move_stacks_lem src dst s same low high =
    rw
      (
        move_stacks,
        move_down_lem src dst s.values low high,
        move_down_lem src dst s.shadow low (omega arith),
      )
      refl

index_below_lem : (len n : ℕ) → n ≤ len → index_below len n ≡ ok (len - n)
unfolding checked_sub
index_below_lem len n h = rw (le→leb n len h) refl

move_results_lem :
    (n dst : ℕ) (s : Execution)
    → length s.values ≡ length s.shadow
    → dst + n ≤ length s.values
    → move_results n dst s ≡ (
      ok tt,
      record s {
        values = take dst s.values ++ drop (length s.values - n) s.values;
        shadow = take dst s.shadow ++ drop (length s.values - n) s.shadow;
      },
    )
unfolding move_results
move_results_lem n dst s same fits =
    rw (index_below_lem (length s.values) n (omega arith), then_run-ok)
      (move_stacks_lem (length s.values - n) dst s same (omega arith) (omega arith))

-- The top `keep` elements moved down over the `gone` ones below them.
abbrev pub without {ℓ} : {A : Type ℓ} → ℕ → ℕ → List A → List A
without keep gone xs = take (length xs - (keep + gone)) xs ++ drop (length xs - keep) xs

abbrev pub Fits : BranchTarget → Frame → Execution → Type 0
Fits t frame s = frame.operand_base + (t.keep + t.pop) ≤ length s.values

-- In a frame with enough operands above its floor, a taken branch keeps in both stacks the top
-- `keep` slots, removes the `pop` slots below them and leaves all below these, and the frames, as
-- they were.
pub take_branch_moves :
    (t : BranchTarget) (frame : Frame) (s : Execution)
    → last? s.frames ≡ some frame
    → length s.values ≡ length s.shadow
    → frame.operand_base + (t.keep + t.pop) ≤ length s.values
    → length s.values ≤ u64_max
    → take_branch t s ≡ (
      ok tt,
      record s { values = without t.keep t.pop s.values; shadow = without t.keep t.pop s.shadow },
    )
unfolding take_branch branch_places
take_branch_moves t frame s top same fits small =
    let gone : length s.values - t.keep - t.pop ≡ length s.values - (t.keep + t.pop) =
      omega arith in
    rw
      (
        ← same,
        ==-refl,
        checked_add_fits t.keep t.pop (omega arith),
        top,
        ge→ltb (length s.values) (frame.operand_base + (t.keep + t.pop)) (omega arith),
        index_below_lem (length s.values) t.keep (omega arith),
        index_below_lem (length s.values - t.keep) t.pop (omega arith),
        then_run-ok,
        move_stacks_lem (length s.values - t.keep) (length s.values - t.keep - t.pop) s same
            (omega arith) (omega arith),
        gone,
      )
      refl

-- With stacks of different lengths, or fewer operands above the floor than the branch keeps and
-- pops, a branch does not succeed, does not panic and changes nothing.
pub take_branch_refuses :
    (t : BranchTarget) (frame : Frame) (s : Execution)
    → last? s.frames ≡ some frame
    → (length s.values ≢ length s.shadow)
      ⊎ (length s.values < frame.operand_base + (t.keep + t.pop))
    → ((take_branch t s).0 ≢ ok tt)
      × (((take_branch t s).0 ≢ err panicked) × ((take_branch t s).1 ≡ s))
unfolding take_branch checked_add
take_branch_refuses t frame s top why = ground arith

return_base_ok :
    (n : ℕ) (tail : Bool) (frame : Frame) (s : Execution)
    → frame.delimiter ≡ none
    → length s.values ≤ u64_max
    → frame.locals_base ≤ frame.operand_base
    → frame.operand_base + n ≤ length s.values
    → (tail ≡ false → length s.values ≡ frame.operand_base + n)
    → return_base n tail frame s ≡ ok frame.locals_base
unfolding return_base
return_base_ok n true frame s plain small low fits exact =
    rw (plain, checked_add_fits frame.locals_base n (omega arith)) (ground arith)
return_base_ok n false frame s plain small low fits exact =
    let e : length s.values ≡ frame.operand_base + n = exact refl in
    rw (plain, checked_add_fits frame.locals_base n (omega arith)) (ground arith)

-- A return of `n` results from an executable frame that holds them above its floor, and, unless it
-- is a tail call's, no other operand: the results of both stacks stand where the frame's locals
-- began, the frame is popped, and the answer says whether the frames are down to `stop_depth`.
pub do_return_moves :
    (n stop_depth : ℕ) (tail : Bool) (callers : List Frame) (frame : Frame) (s : Execution)
    → s.frames ≡ callers ++ frame ∷ []
    → stop_depth ≤ length callers
    → frame.delimiter ≡ none
    → length s.values ≡ length s.shadow
    → length s.values ≤ u64_max
    → frame.locals_base ≤ frame.operand_base
    → frame.operand_base + n ≤ length s.values
    → (tail ≡ false → length s.values ≡ frame.operand_base + n)
    → do_return n stop_depth tail s ≡ (
      ok (length callers == stop_depth),
      record s {
        values = take frame.locals_base s.values ++ drop (length s.values - n) s.values;
        shadow = take frame.locals_base s.shadow ++ drop (length s.shadow - n) s.shadow;
        frames = callers;
      },
    )
unfolding do_return
do_return_moves n stop_depth tail callers frame s split deep plain same small low fits exact =
    let count : length (callers ++ frame ∷ []) ≡ length callers + 1 = length-append callers _ in
    let popped : take (length s.frames - 1) s.frames ≡ callers =
      rw (split, count) (take-append callers (frame ∷ []) _ (omega arith)) in
    rw
      (
        split,
        ← same,
        ==-refl,
        count,
        gt→leb (length callers + 1) stop_depth (omega arith),
        last?-append_one callers frame,
        return_base_ok n tail frame s plain small low fits exact,
        popped,
        move_results_lem n frame.locals_base (record s { frames = callers }) same (omega arith),
        then_run-ok,
      )
      refl

-- A frame that cannot return `n` results: it is a boundary, it has fewer operands above its floor,
-- its locals begin above its floor, or it holds other operands and the return is no tail call's.
pub data Misfit (n : ℕ) (tail : Bool) (frame : Frame) (s : Execution) : Type 0 where
  boundary : (d : Delimiter) → frame.delimiter ≡ some d → Misfit n tail frame s
  few : length s.values < frame.operand_base + n → Misfit n tail frame s
  crossed : frame.operand_base < frame.locals_base → Misfit n tail frame s
  others : tail ≡ false → length s.values ≢ frame.operand_base + n → Misfit n tail frame s

false_err : {e : Error} {n : ℕ} → Path (Result ℕ) (err e) (ok n) → ⊥
false_err q = cc

return_base_misfit :
    (n : ℕ) (tail : Bool) (frame : Frame) (s : Execution) (dst : ℕ)
    → Misfit n tail frame s
    → return_base n tail frame s ≡ ok dst
    → ⊥
unfolding return_base checked_add
return_base_misfit n tail frame s dst (Misfit.boundary d e) h = absurd (false_err (rw e at h))
return_base_misfit n tail frame s dst (Misfit.few w) h = ground arith
return_base_misfit n tail frame s dst (Misfit.crossed w) h = ground arith
return_base_misfit n tail frame s dst (Misfit.others w v) h = ground arith

return_base_no_panic :
    (n : ℕ) (tail : Bool) (frame : Frame) (s : Execution)
    → return_base n tail frame s ≢ err panicked
unfolding return_base checked_add
return_base_no_panic n tail frame s = ground arith

-- From a frame that is a boundary, has fewer than `n` operands above its floor, has its locals
-- above its floor or, unless for a tail call, holds other operands, on stacks of different lengths
-- or at the call's boundary, a return of `n` results does not succeed, does not panic and changes
-- nothing.
pub do_return_refuses :
    (n stop_depth : ℕ) (tail : Bool) (frame : Frame) (s : Execution)
    → last? s.frames ≡ some frame
    → (length s.frames ≤ stop_depth) ⊎ ((length s.values ≢ length s.shadow) ⊎ Misfit n tail frame s)
    → ((again : Bool) → (do_return n stop_depth tail s).0 ≢ ok again)
      × (((do_return n stop_depth tail s).0 ≢ err panicked)
          × ((do_return n stop_depth tail s).1 ≡ s))
unfolding do_return
do_return_refuses n stop_depth tail frame s top (inl low) = ground arith
do_return_refuses n stop_depth tail frame s top (inr (inl apart)) = ground arith
do_return_refuses n stop_depth tail frame s top (inr (inr why)) =
    elim (Result-cases (return_base n tail frame s)) [
      | inl (dst, e) ↦ absurd (return_base_misfit n tail frame s dst why e)
      | inr (x, e) ↦
          let real : x ≢ panicked = λ q. return_base_no_panic n tail frame s (e ∙ ap err q) in
          ground arith
    ]
