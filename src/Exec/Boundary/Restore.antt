-- ===== src/Exec/Boundary/Restore.antt =====
-- exec/mod.rs: the ends of a host-entered call.
use submilli_wasm.Base.{
  ℕ, suc, ◌+◌, ◌-◌, ◌≡◌, ◌≢◌, inl, inr, refl, sym, ap, ◌∙◌, none, some, Bool, true, false, not,
  ◌&&◌, List, [], ◌∷◌, ◌++◌, map, length, drop, all, get_elem?, arith, length-append, take-append,
  leb, ltb, ◌==◌, ==_iff, Bool-cases, get_elem?-append_at,
}
use submilli_wasm.Error.{Result, ok, err, Error, panicked, Result-cases}
use submilli_wasm.State.{then_run, then_run-ok}
use submilli_wasm.Word.{u32_max, checked_add}
use submilli_wasm.Exec.Value.{Val, ValType}
use submilli_wasm.Exec.Cell.{Cell, RefTag, encode, of_val}
use submilli_wasm.Exec.Execution.{Delimiter, CompiledFunc, Frame, Execution}
use submilli_wasm.Exec.Frame.{
  is_some, push_call, push_delimiter, push_frame, call_bases, boundary_frame,
}
use submilli_wasm.Exec.Boundary.{
  enter_depth, push_args, enter_frame, enter_call, release_reentry, validate_result_tags, cut_to,
  take_results, discard_to, last_boundary, discard_current_call, release_kind, undo,
}

push_call_err :
    (i n : ℕ) (func : CompiledFunc) (s : Execution) (e : Error) (s' : Execution)
    → push_call i n func s ≡ (err e, s')
    → (e ≢ panicked) × (s' ≡ s)
unfolding push_call call_bases then_run
push_call_err i n func s e s' h = ground arith

undo_lem :
    (d : Frame) (args : List Val) (old : Execution) (depth : ℕ)
    → length old.values ≡ length old.shadow
    → undo old (push_args args (push_frame d (record old { host_reentry_depth = depth }))) ≡ old
undo_lem d args old depth same =
    rw
      (
        take-append old.values (map encode args) (length old.values) refl,
        take-append old.shadow (map of_val args) (length old.values) same,
        take-append old.frames (d ∷ []) (length old.frames) refl,
      )
      refl

enter_depth-safe : (kind : Delimiter) (depth : ℕ) → enter_depth kind depth ≢ err panicked
unfolding enter_depth
enter_depth-safe kind depth = ground arith

framed_err :
    (i n : ℕ) (func : CompiledFunc) (args : List Val) (d : Frame) (old : Execution) (depth : ℕ)
    (q : Result (Unit {0}) × Execution) (e : Error) (s' : Execution)
    → length old.values ≡ length old.shadow
    → push_call i n func (push_args args (push_frame d (record old { host_reentry_depth = depth })))
      ≡ q
    → enter_frame i n func old q ≡ (err e, s')
    → (e ≢ panicked) × (s' ≡ old)
framed_err i n func args d old depth (ok u, x) e s' same k h = ground arith
framed_err i n func args d old depth (err f, x) e s' same k h =
    let (safe, kept) = push_call_err i n func _ f x k in
    let same_error : f ≡ e = ground arith in
    let rolled : undo old x ≡ s' = ap (λ r. r.1) h in
    (
      (λ b. safe (same_error ∙ b)),
      sym rolled ∙ (ap (undo old) kept ∙ undo_lem d args old depth same),
    )

-- Whenever `enter_call` fails, the error is no panic and the execution is exactly as it was before
-- the call.
pub enter_call_restores :
    (kind : Delimiter) (i n : ℕ) (func : CompiledFunc) (args : List Val) (s : Execution) (e : Error)
    (s' : Execution)
    → enter_call kind i n func args s ≡ (err e, s')
    → (e ≢ panicked) × (s' ≡ s)
unfolding enter_call push_delimiter
enter_call_restores kind i n func args s e s' h =
    elim (Result-cases (enter_depth kind s.host_reentry_depth)) [
      | inr (f, k) ↦ ground (arith, enter_depth-safe kind s.host_reentry_depth)
      | inl (depth, k) ↦ elim (Bool-cases (length s.values == length s.shadow)) [
        | inr b ↦ ground arith
        | inl b ↦ elim (Bool-cases (ltb u32_max (length s.values))) [
          | inl c ↦ ground arith
          | inr c ↦
              framed_err i n func args (boundary_frame kind i func (length s.values)) s depth _ e s'
                ((==_iff _ _).0 b) refl (simp (enter_call, k, push_delimiter, b, c) at h)
        ]
      ]
    ]

-- `s'` runs a call that was entered from `s`: what `s` had lies below the call's boundary.
pub record Entered (kind : Delimiter) (rest : List Frame) (s s' : Execution) : Type 0 where
  pub boundary : Frame
  pub outer_lockstep : length s.values ≡ length s.shadow
  pub lockstep : length s'.values ≡ length s'.shadow
  pub values_above : (vs : List Cell) × (s'.values ≡ s.values ++ vs)
  pub tags_above : (ts : List RefTag) × (s'.shadow ≡ s.shadow ++ ts)
  pub framed : s'.frames ≡ s.frames ++ boundary ∷ rest
  pub marked : boundary.delimiter ≡ some kind
  pub placed : boundary.locals_base ≡ length s.values
  pub counted : enter_depth kind s.host_reentry_depth ≡ ok s'.host_reentry_depth

abbrev pub all_plain : List Frame → Bool
all_plain = all λ frame. not (is_some frame.delimiter)

no_boundary : (xs : List Frame) (n : ℕ) → all_plain xs ≡ true → last_boundary xs n ≡ none
unfolding last_boundary
no_boundary [] n h = refl
no_boundary (x ∷ xs) n h =
    let above : all_plain xs ≡ true = ground arith in
    rw (last_boundary, no_boundary xs (n + 1) above) (ground arith)

last_boundary-append :
    (xs : List Frame) (d : Frame) (rest : List Frame) (n : ℕ)
    → all_plain rest ≡ true
    → is_some d.delimiter ≡ true
    → last_boundary (xs ++ d ∷ rest) n ≡ some (n + length xs, d.locals_base)
unfolding last_boundary
last_boundary-append [] d rest n plain here =
    rw (no_boundary rest (n + 1) plain, here) (ap (λ i. some (i, d.locals_base)) (omega arith))
last_boundary-append (x ∷ xs) d rest n plain here =
    rw (last_boundary-append xs d rest (n + 1) plain here)
      (ap (λ i. some (i, d.locals_base)) (omega arith))

released :
    (kind : Delimiter) (s s' : Execution)
    → enter_depth kind s.host_reentry_depth ≡ ok s'.host_reentry_depth
    → release_kind kind s' ≡ (ok tt, record s' { host_reentry_depth = s.host_reentry_depth })
unfolding enter_depth checked_add
released Delimiter.top_level s s' h =
    let e : s.host_reentry_depth ≡ s'.host_reentry_depth = ground arith in rw e refl
released Delimiter.host_reentry s s' h =
    let e : s'.host_reentry_depth ≡ s.host_reentry_depth + 1 = ground arith in
    let back : s'.host_reentry_depth - 1 ≡ s.host_reentry_depth = omega arith in
    let some_left : (s'.host_reentry_depth == 0) ≡ false = ground arith in rw (some_left, back) refl

release_reentry_lem :
    (kind : Delimiter) (rest : List Frame) (s s' : Execution)
    → Entered kind rest s s'
    → release_reentry (length s.frames) s'
      ≡ (ok tt, record s' { host_reentry_depth = s.host_reentry_depth })
unfolding release_reentry enter_depth
release_reentry_lem kind rest s s' r =
    let found : get_elem? s'.frames (length s.frames) ≡ some r.boundary =
      rw (r.framed) (get_elem?-append_at s.frames (r.boundary ∷ rest) _ 0 (omega arith)) in
    rw (release_reentry, found, r.marked) (released kind s s' r.counted)

cut_lem :
    (kind : Delimiter) (rest : List Frame) (s s' : Execution)
    → Entered kind rest s s'
    → cut_to
        (length s.values)
        (length s.frames)
        (record s' { host_reentry_depth = s.host_reentry_depth })
      ≡ s
cut_lem kind rest s s' r =
    rw
      (
        r.values_above.1,
        take-append s.values r.values_above.0 (length s.values) refl,
        r.tags_above.1,
        take-append s.shadow r.tags_above.0 (length s.values) r.outer_lockstep,
        r.framed,
        take-append s.frames (r.boundary ∷ rest) (length s.frames) refl,
      )
      refl

module _ (kind : Delimiter) (rest : List Frame) (s s' : Execution)
    (r : Entered kind rest s s') where
  in_bounds :
      (length s'.values == length s'.shadow)
        && leb (length s.values) (length s'.values)
        && leb (length s.frames) (length s'.frames)
      ≡ true
  in_bounds =
      let e : length s'.values ≡ length s.values + length r.values_above.0 =
        rw (r.values_above.1) (length-append s.values r.values_above.0) in
      let f : length s'.frames ≡ length s.frames + suc (length rest) =
        rw (r.framed) (length-append s.frames (r.boundary ∷ rest)) in
      ground (arith, r.lockstep)

  pub discard_to_lem : discard_to (length s.values) (length s.frames) s' ≡ (ok tt, s)
  unfolding discard_to
  discard_to_lem =
      rw
        (
          discard_to,
          in_bounds,
          then_run-ok,
          then_run-ok,
          release_reentry_lem kind rest s s' r,
          then_run-ok,
          cut_lem kind rest s s' r,
        )
        refl

  -- At any state of a host-entered call that still has the outer execution below its boundary,
  -- with no boundary among the frames above its own, `discard_current_call` reports where the
  -- boundary stands and gives back exactly the outer execution: values, tags, frames and re-entry
  -- count.
  pub discard_current_call_lem :
      all_plain rest ≡ true → discard_current_call s' ≡ (ok (length s.values, length s.frames), s)
  unfolding discard_current_call
  discard_current_call_lem plain =
      let found : last_boundary s'.frames 0 ≡ some (length s.frames, length s.values) =
        rw
          (
            r.framed,
            last_boundary-append s.frames r.boundary rest 0 plain (rw (r.marked) refl),
            r.placed,
          )
          (ap (λ i. some (i, length s.values)) (omega arith)) in
      rw (discard_current_call, found, then_run-ok, discard_to_lem, then_run-ok) refl

  -- When a host-entered call has come back to its boundary with the outer execution below it, and
  -- the tags of its results fit the result types, `take_results` returns the result cells in order
  -- and leaves exactly the outer execution.
  pub take_results_lem :
      (tys : List ValType)
      → validate_result_tags (length s.values) tys s' ≡ ok tt
      → take_results (length s.values) (length s.frames) tys s'
        ≡ (ok (drop (length s.values) s'.values), s)
  unfolding take_results
  take_results_lem tys h =
      rw
        (
          take_results,
          in_bounds,
          then_run-ok,
          then_run-ok,
          h,
          then_run-ok,
          release_reentry_lem kind rest s s' r,
          then_run-ok,
          then_run-ok,
          then_run-ok,
          cut_lem kind rest s s' r,
        )
        refl
