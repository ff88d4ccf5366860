-- ===== src/Exec/Exn.antt =====
-- exec/exn.rs: raising an exception, and the unwinder that looks for its handler.
-- `tags_of` lists, for each instance of the store, the store's index of each of its tags; `exns` is
-- the store's exception arena. The unwinder reads both and changes the execution only.
pub mod Clauses
pub mod Landing
pub mod Sites
pub mod Correct
pub mod Unwinds
pub mod Rounds
pub mod Total
use submilli_wasm.Base.{
  ℕ, zero, suc, ◌+◌, ◌-◌, Option, none, some, Bool, true, false, not, ◌&&◌, ◌||◌, List, [], ◌∷◌,
  ◌++◌, length, get_elem?, take, leb, ltb, ◌==◌, if◌then◌else◌,
}
use submilli_wasm.Error.{
  Result, ok, err, Error, internal, gc_metadata, compiler, pending_exception, trap, null_reference,
  panicked, ok_or, bad_stack, bad_frame,
}
use submilli_wasm.State.{M, lift, ◌>>=◌, ◌>>◌}
use submilli_wasm.Word.{u32_max, checked_sub}
use submilli_wasm.Exec.Value.{Val, RefKind}
use submilli_wasm.Exec.Execution.{
  HandlerRec, HandlerSpan, CompiledFunc, Frame, Execution, last?, truncate,
}
use submilli_wasm.Exec.Stack.{in_lockstep, pop_ref}
use submilli_wasm.Exec.Frame.{pop_frame}
use submilli_wasm.Exec.Boundary.{push_args}
use submilli_wasm.Store.Reclaim.{ReclaimArena, entry}
use submilli_wasm.Store.Collect.{ExnEntity}

-- Whether a clause's tag is the thrown one; a clause without a tag catches all. The tags are those of
-- the frame's instance, which is read only here.
unfoldable pub clause_matches : Option (List ℕ) → ℕ → Option ℕ → Result Bool
clause_matches tags thrown none = ok true
clause_matches none thrown (some idx) = err panicked
clause_matches (some tags) thrown (some idx) = elim (get_elem? tags idx) [
  | none ↦ err (internal (compiler "exception handler tag is missing"))
  | some tag ↦ ok (tag == thrown)
]

unfoldable pub first_clause : Option (List ℕ) → ℕ → List HandlerRec → Result (Option HandlerRec)
first_clause tags thrown [] = ok none
first_clause tags thrown (rec ∷ recs) = elim (clause_matches tags thrown rec.tag) [
  | err e ↦ err e
  | ok true ↦ ok (some rec)
  | ok false ↦ first_clause tags thrown recs
]

unfoldable pub find_clause : Option (List ℕ) → ℕ → ℕ → List HandlerSpan → Result (Option HandlerRec)
find_clause tags thrown ip [] = ok none
find_clause tags thrown ip (span ∷ spans) =
    let rest = find_clause tags thrown ip spans in
    if leb span.start_ip ip && ltb ip span.end_ip
    then elim (first_clause tags thrown span.clauses) [
      | err e ↦ err e
      | ok (some rec) ↦ ok (some rec)
      | ok none ↦ rest
    ]
    else rest

-- The values that a handler finds: the exception's arguments, and the exception itself.
unfoldable pub payload : ExnEntity → ℕ → HandlerRec → List Val
payload entity exn rec =
    (if rec.payload_args then entity.args else [])
    ++ (if rec.payload_ref then Val.exn_ref (some exn) ∷ [] else [])

abbrev pub land : ℕ → List Frame → List Frame
land ip [] = []
land ip (f ∷ []) = record f { ip = ip } ∷ []
land ip (f ∷ g ∷ fs) = f ∷ land ip (g ∷ fs)

-- `frames.last_mut()` is there: the unwinder has just read the frame.
unfoldable pub enter_exception_handler :
    ExnEntity → ℕ → HandlerRec → ℕ → Execution → Result (Unit {0}) × Execution
enter_exception_handler entity exn rec floor s =
    let restore = floor + rec.restore_height in
    if ltb u32_max restore
    then (err (bad_stack "exception restore height overflow"), s)
    else if not (in_lockstep s) || ltb (length s.values) restore
    then (err (bad_stack "exception restore height exceeds operand stack"), s)
    else (
      ok tt,
      let landed = push_args (payload entity exn rec) (truncate restore s) in
          record landed { frames = land rec.landing_ip landed.frames },
    )

unfoldable pub pop_unwound_frame : ℕ → M Execution (Unit {0})
pop_unwound_frame base s =
    if not (in_lockstep s) || ltb (length s.values) base
    then (err (bad_stack "frame base exceeds operand stack during unwind"), s)
    else (ok tt, pop_frame (truncate base s))

-- The call site in the frame that is now the last.
unfoldable pub caller_site : Execution → Result ℕ
caller_site s = elim (last? s.frames) [
  | none ↦ err (bad_frame "missing caller frame during unwind")
  | some frame ↦ ok_or (checked_sub frame.ip 1) (bad_frame "caller return address underflow")
]

module _ (tags_of : List (List ℕ)) (entity : ExnEntity) where
  -- The clause that catches the exception in a frame, at an instruction of it.
  unfoldable pub clause_in : Frame → ℕ → Result (Option HandlerRec)
  clause_in frame ip =
      find_clause (get_elem? tags_of frame.instance_of) entity.tag ip frame.func.handlers

module _ (tags_of : List (List ℕ)) (entity : ExnEntity) (exn stop_depth : ℕ) where
  -- What follows the pop of a frame: the boundary is reached, or the search goes on in the caller.
  abbrev pub go_on :
      (ℕ → Execution → Option (Result (Unit {0}) × Execution))
      → Result (Unit {0}) × Execution
      → Option (Result (Unit {0}) × Execution)
  go_on next (err e, s) = some (err e, s)
  go_on next (ok done, s) =
      if length s.frames == stop_depth
      then some (err (pending_exception exn), s)
      else elim (caller_site s) [ err e ↦ some (err e, s) | ok site ↦ next site s ]

  -- The rounds of `unwind`, `none` if the fuel runs out.
  unfoldable pub unwind_from : ℕ → ℕ → Execution → Option (Result (Unit {0}) × Execution)
  unwind_from zero ip s = none
  unwind_from (suc fuel) ip s =
      if leb (length s.frames) stop_depth
      then some (err (pending_exception exn), s)
      else elim (last? s.frames) [
        | none ↦ some (err (bad_frame "missing frame during exception unwind"), s)
        | some frame ↦ elim (clause_in tags_of entity frame ip) [
          | err e ↦ some (err e, s)
          | ok (some rec) ↦ some (enter_exception_handler entity exn rec frame.operand_base s)
          | ok none ↦ go_on (unwind_from fuel) (pop_unwound_frame frame.locals_base s)
        ]
      ]

-- A raised error is unwound if it is an exception; the fuel is one more than the frames.
unfoldable pub unwind :
    List (List ℕ)
    → ReclaimArena ExnEntity
    → Error
    → ℕ
    → ℕ
    → Execution
    → Option (Result (Unit {0}) × Execution)
unwind tags_of exns (pending_exception exn) fault_ip stop_depth s = elim (entry exns exn) [
  | none ↦ some (err (internal (gc_metadata "missing in-flight exception")), s)
  | some entity ↦ unwind_from tags_of entity exn stop_depth (suc (length s.frames)) fault_ip s
]
unwind tags_of exns e fault_ip stop_depth s = some (err e, s)

-- What a popped exception reference raises.
unfoldable pub raise : Val → Result (Unit {0})
raise (Val.exn_ref (some exn)) = err (pending_exception exn)
raise (Val.exn_ref none) = err (trap null_reference)
raise v = err panicked

unfoldable pub throw_ref : M Execution (Unit {0})
throw_ref = do exn ← pop_ref RefKind.exn; lift (raise exn)

-- The call site of a host call, in the frame that made it.
unfoldable pub host_call_site : Execution → Result ℕ
host_call_site s = elim (last? s.frames) [
  | none ↦ err (bad_frame "missing host call frame")
  | some frame ↦ ok_or (checked_sub frame.ip 1) (bad_frame "host call return address underflow")
]

-- An exception that a host's function threw, with no backtrace taken.
unfoldable pub raise_host_exception :
    List (List ℕ)
    → ReclaimArena ExnEntity
    → ℕ
    → ℕ
    → Execution
    → Option (Result (Unit {0}) × Execution)
raise_host_exception tags_of exns exn stop_depth s =
    if leb (length s.frames) stop_depth
    then some (err (pending_exception exn), s)
    else elim (host_call_site s) [
      | err e ↦ some (err e, s)
      | ok fault_ip ↦ unwind tags_of exns (pending_exception exn) fault_ip stop_depth s
    ]
