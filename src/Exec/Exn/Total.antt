-- ===== src/Exec/Exn/Total.antt =====
-- exec/exn.rs: the unwinder ends, with one more fuel than frames.
use submilli_wasm.Base.{
  ℕ, zero, suc, ◌-◌, ◌<◌, ◌≡◌, inl, inr, none, some, false, List, length, leb, ◌==◌, arith,
  Bool-cases, leb→gt,
}
use submilli_wasm.Error.{Result, pending_exception}
use submilli_wasm.Exec.Execution.{Frame, Execution, last?, truncate}
use submilli_wasm.Exec.Frame.{pop_frame}
use submilli_wasm.Store.Reclaim.{ReclaimArena, entry}
use submilli_wasm.Store.Collect.{ExnEntity}
use submilli_wasm.Exec.Exn.{clause_in, unwind}
use submilli_wasm.Exec.Exn.Sites.{last-some, length-rest}
use submilli_wasm.Exec.Exn.Correct.{IsReady, IsUnwindable, Unwound}
use submilli_wasm.Exec.Exn.Clauses.{Search, find_clause_lem}
use submilli_wasm.Exec.Exn.Rounds.{Ends, stops, ready, catches, drops, goes_on}

module _ (tags_of : List (List ℕ)) (entity : ExnEntity) (exn stop_depth : ℕ) where
  abbrev Next : ℕ → Type 0
  Next fuel =
      (ip' : ℕ) (s' : Execution)
      → length s'.frames < fuel
      → IsUnwindable tags_of entity stop_depth ip' s'
      → Ends tags_of entity exn stop_depth fuel ip' s'

  -- The last frame has been searched.
  searched :
      (fuel ip : ℕ) (s : Execution)
      → (more : leb (length s.frames) stop_depth ≡ false) → length s.frames < suc fuel
      → IsUnwindable tags_of entity stop_depth ip s
      → Next fuel
      → length s.frames ≡ suc (length s.frames - 1)
      → (f0 : Frame) → last? s.frames ≡ some f0
      → IsReady tags_of entity ip (length s.values) f0
      → Search tags_of f0.instance_of entity.tag ip f0.func.handlers
      → Ends tags_of entity exn stop_depth (suc fuel) ip s
  unfolding clause_in
  searched fuel ip s more lt u next len f0 l r (some rec, (run, spec)) =
      catches tags_of entity exn stop_depth fuel ip s more len f0 l u rec run spec
        (r.restored rec spec)
  searched fuel ip s more lt u next len f0 l r (none, (run, spec)) =
      elim (Bool-cases (length (pop_frame (truncate f0.locals_base s)).frames == stop_depth)) [
        | inl d ↦ drops tags_of entity exn stop_depth fuel ip s more len f0 l u run spec r.based d
        | inr d ↦
            goes_on tags_of entity exn stop_depth fuel ip s more len f0 l u run spec r.based d
              (λ ip' u'.
                next ip' (pop_frame (truncate f0.locals_base s))
                  (omega (arith, length-rest s.frames (length s.frames - 1) len)) u')
      ]

  round :
      (fuel ip : ℕ) (s : Execution)
      → leb (length s.frames) stop_depth ≡ false
      → length s.frames < suc fuel
      → IsUnwindable tags_of entity stop_depth ip s
      → Next fuel
      → Ends tags_of entity exn stop_depth (suc fuel) ip s
  round fuel ip s more lt u next =
      let len : length s.frames ≡ suc (length s.frames - 1) =
        omega (arith, leb→gt (length s.frames) stop_depth more) in
      let (f0, l) = last-some s.frames (omega arith) in
      let r = ready tags_of entity exn stop_depth fuel ip s more len f0 l u in
      searched fuel ip s more lt u next len f0 l r
        (find_clause_lem tags_of f0.instance_of entity.tag ip f0.func.handlers r.linked)

  unwind_from-Ends :
      (fuel ip : ℕ) (s : Execution)
      → length s.frames < fuel
      → IsUnwindable tags_of entity stop_depth ip s
      → Ends tags_of entity exn stop_depth fuel ip s
  unwind_from-Ends zero ip s lt u = absurd (omega arith)
  unwind_from-Ends (suc fuel) ip s lt u = elim (Bool-cases (leb (length s.frames) stop_depth)) [
    | inl e ↦ stops tags_of entity exn stop_depth fuel ip s e
    | inr e ↦ round fuel ip s e lt u (unwind_from-Ends fuel)
  ]

-- For an exception of the store, and frames from the boundary on that are ready to be unwound, the
-- unwinding always ends, as the frames determine. Either the innermost frame above the boundary
-- with a clause for the exception is the last one left, where the first span at its instruction
-- that has such a clause gives its first one: both stacks are cut to the clause's height, with the
-- arguments and the reference that the clause asks for on top, and the frame goes on at the
-- clause's landing pad. Or no frame above the boundary has such a clause: these frames are gone,
-- and the exception is still pending.
pub unwind-Unwound :
    (tags_of : List (List ℕ)) (exns : ReclaimArena ExnEntity) (exn : ℕ) (entity : ExnEntity)
    (fault_ip stop_depth : ℕ) (s : Execution)
    → entry exns exn ≡ some entity
    → IsUnwindable tags_of entity stop_depth fault_ip s
    → (o : Result (Unit {0}) × Execution) × ((unwind tags_of exns
            (pending_exception exn)
            fault_ip
            stop_depth
            s
          ≡ some o)
        × Unwound tags_of entity exn stop_depth fault_ip s o)
unfolding unwind
unwind-Unwound tags_of exns exn entity fault_ip stop_depth s found u =
    let (o, (run, how)) =
      unwind_from-Ends tags_of entity exn stop_depth (suc (length s.frames)) fault_ip s
        (omega arith) u in
    (o, (rw (unwind, found) run, how))
