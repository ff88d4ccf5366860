-- ===== src/Exec/Tests/Exceptions.antt =====
-- Instances of the theorems on exec/exn.rs: a callee throws, and its caller has a handler.
use submilli_wasm.Base.{
  ℕ, ap, sym, ◌∙◌, subst, zero, suc, ◌≡◌, ◌≤◌, ◌<◌, none, some, true, false, [], ◌∷◌, Option,
  get_elem?, refl, arith,
}
use submilli_wasm.Error.{Result, ok, pending_exception}
use submilli_wasm.Word.{checked_sub}
use submilli_wasm.Exec.Value.{Val}
use submilli_wasm.Exec.Cell.{RefTag, from_i32, encode, of_val}
use submilli_wasm.Exec.Execution.{HandlerRec, HandlerSpan, CompiledFunc, Frame, Execution}
use submilli_wasm.Store.Reclaim.{ReclaimArena, entry}
use submilli_wasm.Store.Collect.{ExnEntity}
use submilli_wasm.Exec.Exn.{
  unwind, unwind_from, enter_exception_handler, pop_unwound_frame, caller_site, payload, clause_in,
  clause_matches, first_clause, find_clause,
}
use submilli_wasm.Exec.Exn.Correct.{CatchesIn, IsReady, IsUnwindable, Unwound}
use submilli_wasm.Exec.Exn.Clauses.{AllLinked, AllSpans}
use submilli_wasm.Exec.Exn.Landing.{same_frame}
use submilli_wasm.Exec.Exn.Sites.{site, ceiling}
use submilli_wasm.Exec.Exn.Total.{unwind-Unwound}
use submilli_wasm.Exec.Tests.{no_params, outer_frame}

-- A clause for the other tag, then one for all.
abbrev other_tag : HandlerRec
other_tag = record {
  tag = some 0;
  restore_height = 0;
  payload_args = false;
  payload_ref = false;
  landing_ip = 8;
}

same_index : {i j : ℕ} → Path (Option ℕ) (some i) (some j) → i ≡ j
same_index e = cc

untagged : {i : ℕ} → Path (Option ℕ) none (some i) → ⊥
untagged e = cc

same_clause : {r q : HandlerRec} → Path (Option HandlerRec) (some r) (some q) → r ≡ q
same_clause e = cc

abbrev any_tag : HandlerRec
any_tag = record {
  tag = none;
  restore_height = 1;
  payload_args = true;
  payload_ref = false;
  landing_ip = 9;
}

same_span : {r q : HandlerSpan} → Path (Option HandlerSpan) (some r) (some q) → r ≡ q
same_span e = cc

same_clauses :
    {r q : HandlerSpan} → Path (Option HandlerSpan) (some r) (some q) → r.clauses ≡ q.clauses
same_clauses e = ap (λ (s : HandlerSpan). s.clauses) (same_span e)

abbrev guarded : CompiledFunc
guarded = record no_params {
  handlers = record { start_ip = 1; end_ip = 6; clauses = other_tag ∷ any_tag ∷ [] } ∷ [];
}

abbrev handling : Frame
handling = record outer_frame { func = guarded; ip = 4 }

abbrev throwing : Frame
throwing = record outer_frame { locals_base = 2; operand_base = 2 }

abbrev thrown : ExnEntity
thrown = record { tag = 5; args = Val.i32 6 ∷ [] }

abbrev exns : ReclaimArena ExnEntity
exns = record { slots = some thrown ∷ []; generations = 0 ∷ []; free = [] }

abbrev in_callee : Execution
in_callee = record {
  values = from_i32 7 ∷ from_i32 3 ∷ from_i32 4 ∷ [];
  shadow = RefTag.untagged ∷ RefTag.untagged ∷ RefTag.untagged ∷ [];
  frames = handling ∷ throwing ∷ [];
  host_reentry_depth = 0;
}

abbrev caught : Execution
caught = record {
  values = from_i32 7 ∷ from_i32 6 ∷ [];
  shadow = RefTag.untagged ∷ RefTag.untagged ∷ [];
  frames = record handling { ip = 9 } ∷ [];
  host_reentry_depth = 0;
}

in_callee-caught :
    unwind ((4 ∷ []) ∷ []) exns (pending_exception 0) 2 0 in_callee ≡ some (ok tt, caught)
unfolding unwind entry unwind_from clause_in find_clause pop_unwound_frame caller_site checked_sub
    first_clause clause_matches enter_exception_handler payload from_i32 encode of_val
in_callee-caught = refl

-- The first clause names a tag of its instance, and the other names none.
handlers-AllSpans : AllSpans ((4 ∷ []) ∷ []) 0 5 guarded.handlers
handlers-AllSpans zero span e i rec c =
    subst (AllLinked ((4 ∷ []) ∷ []) 0 5) (same_clauses e) linked i rec c
  where
    linked : AllLinked ((4 ∷ []) ∷ []) 0 5 (other_tag ∷ any_tag ∷ [])
    linked zero rec c idx t =
        (4 ∷ [], (4, (refl, first (ap (λ (r : HandlerRec). r.tag) (same_clause c) ∙ t))))
      where
        first : Path (Option ℕ) (some 0) (some idx) → get_elem? {A = ℕ} (4 ∷ []) idx ≡ some 4
        first e = subst (λ k. get_elem? {A = ℕ} (4 ∷ []) k ≡ some 4) (same_index e) refl
    linked (suc zero) rec c idx t =
        absurd (untagged (ap (λ (r : HandlerRec). r.tag) (same_clause c) ∙ t))
    linked (suc (suc i)) rec c idx t = cc
handlers-AllSpans (suc i) span e k rec c = cc

-- A clause of the table restores one operand at most.
restored_small :
    (r : HandlerRec) → CatchesIn ((4 ∷ []) ∷ []) thrown 3 handling r → r.restore_height ≤ 1
restored_small r (span, ((zero, (e, p)), (j, (c, rest)))) =
    small j r (subst (λ l. get_elem? l j ≡ some r) (sym (same_clauses e)) c)
  where
    small :
        (j : ℕ) (r : HandlerRec)
        → get_elem? (other_tag ∷ any_tag ∷ []) j ≡ some r
        → r.restore_height ≤ 1
    small zero r c = subst (λ (q : HandlerRec). q.restore_height ≤ 1) (same_clause c) (omega arith)
    small (suc zero) r c =
        subst (λ (q : HandlerRec). q.restore_height ≤ 1) (same_clause c) (omega arith)
    small (suc (suc j)) r c = cc
restored_small r (span, ((suc i, (e, p)), rest)) = cc

handling-IsReady : IsReady ((4 ∷ []) ∷ []) thrown 3 2 handling
handling-IsReady = record {
  linked = handlers-AllSpans;
  based = omega arith;
  restored = λ r c. let h : r.restore_height ≤ 1 = restored_small r c in (omega arith, omega arith);
}

throwing-IsReady : IsReady ((4 ∷ []) ∷ []) thrown 2 3 throwing
throwing-IsReady = record {
  linked = λ i span e. cc;
  based = omega arith;
  restored = λ r c. let (span, ((i, (e, p)), rest)) = c in cc;
}

in_callee-IsUnwindable : IsUnwindable ((4 ∷ []) ∷ []) thrown 0 2 in_callee
in_callee-IsUnwindable = record { lockstep = refl; ready = ready; called = called }
  where
    ready :
        (j : ℕ) (f : Frame)
        → 0 ≤ j
        → get_elem? in_callee.frames j ≡ some f
        → IsReady
            ((4 ∷ []) ∷ [])
            thrown
            (site 2 in_callee.frames j)
            (ceiling 3 in_callee.frames j)
            f
    ready zero f h e = subst (IsReady ((4 ∷ []) ∷ []) thrown 3 2) (same_frame e) handling-IsReady
    ready (suc zero) f h e =
        subst (IsReady ((4 ∷ []) ∷ []) thrown 2 3) (same_frame e) throwing-IsReady
    ready (suc (suc j)) f h e = cc

    called :
        (j : ℕ) (f : Frame) → 0 ≤ j → get_elem? in_callee.frames j ≡ some f → suc j < 2 → 1 ≤ f.ip
    called zero f h e lt = subst (λ g. 1 ≤ g.ip) (same_frame e) (omega arith)
    called (suc j) f h e lt = absurd (omega arith)

unwind-Unwound_example :
    (o : Result (Unit {0}) × Execution) × ((unwind
          ((4 ∷ []) ∷ [])
          exns
          (pending_exception 0)
          2
          0
          in_callee
        ≡ some o)
      × Unwound ((4 ∷ []) ∷ []) thrown 0 0 2 in_callee o)
unfolding entry
unwind-Unwound_example =
    unwind-Unwound ((4 ∷ []) ∷ []) exns 0 thrown 2 0 in_callee refl in_callee-IsUnwindable
