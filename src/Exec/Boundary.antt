-- ===== src/Exec/Boundary.antt =====
-- exec/mod.rs: host-entered calls on the shared stacks, their boundaries, results and roll-back.
pub mod Restore
pub mod Enter
use submilli_wasm.Base.{
  ℕ, ◌+◌, ◌-◌, Option, none, some, Bool, true, false, not, ◌&&◌, ◌||◌, List, [], ◌∷◌, ◌++◌, map,
  length, get_elem?, take, drop, leb, ltb, ◌==◌, if◌then◌else◌,
}
use submilli_wasm.Error.{
  Result, ok, err, Error, ◌>>=◌ as and_then, ok_or, bad_stack, bad_frame, bad_results,
}
use submilli_wasm.State.{M, ◌>>=◌, ◌>>◌, then_run, pure, gets, reads, modify}
use submilli_wasm.Word.{checked_add, checked_mul}
use submilli_wasm.Exec.Value.{Val, ValType}
use submilli_wasm.Exec.Cell.{Cell, RefTag, slot_bytes, tag_eq, of_val, encode, expected_tag}
use submilli_wasm.Exec.Execution.{Delimiter, CompiledFunc, Frame, Execution, truncate}
use submilli_wasm.Exec.Stack.{in_lockstep, require}
use submilli_wasm.Exec.Frame.{is_some, push_delimiter, push_call}

abbrev pub is_reentry : Delimiter → Bool
is_reentry Delimiter.top_level = false
is_reentry Delimiter.host_reentry = true

unfoldable pub enter_depth : Delimiter → ℕ → Result ℕ
enter_depth kind depth =
    if is_reentry kind
    then ok_or (checked_add depth 1) (bad_frame "host re-entry depth overflow")
    else ok depth

abbrev pub push_args : List Val → Execution → Execution
push_args args s = record s {
  values = s.values ++ map encode args;
  shadow = s.shadow ++ map of_val args;
}

-- The roll-back of a failed `push_call`: both stacks, the frames and the depth as they were.
abbrev pub undo : Execution → Execution → Execution
undo old s = record s {
  values = take (length old.values) s.values;
  shadow = take (length old.values) s.shadow;
  frames = take (length old.frames) s.frames;
  host_reentry_depth = old.host_reentry_depth;
}

abbrev pub enter_frame :
    ℕ → ℕ → CompiledFunc → Execution → Result (Unit {0}) × Execution → Result (Unit {0}) × Execution
enter_frame instance_of func_index func old (ok u, s) = (ok u, s)
enter_frame instance_of func_index func old (err e, s) = (err e, undo old s)

abbrev pub after_delimiter :
    ℕ
    → ℕ
    → CompiledFunc
    → List Val
    → Execution
    → Result (Unit {0}) × Execution
    → Result (Unit {0}) × Execution
after_delimiter instance_of func_index func args old (ok u, s) =
    enter_frame instance_of func_index func old
      (push_call instance_of func_index func (push_args args s))
after_delimiter instance_of func_index func args old (err e, s) =
    (err e, record s { host_reentry_depth = old.host_reentry_depth })

unfoldable pub enter_call : Delimiter → ℕ → ℕ → CompiledFunc → List Val → M Execution (Unit {0})
enter_call kind instance_of func_index func args s = elim (enter_depth kind s.host_reentry_depth) [
  | err e ↦ (err e, s)
  | ok depth ↦
      after_delimiter instance_of func_index func args s
        (push_delimiter kind instance_of func (record s { host_reentry_depth = depth }))
]

abbrev pub release_kind : Delimiter → M Execution (Unit {0})
release_kind kind s =
    if not (is_reentry kind)
    then (ok tt, s)
    else if s.host_reentry_depth == 0
    then (err (bad_frame "host re-entry depth underflow"), s)
    else (ok tt, record s { host_reentry_depth = s.host_reentry_depth - 1 })

unfoldable pub release_reentry : ℕ → M Execution (Unit {0})
release_reentry stop_depth s = elim (get_elem? s.frames stop_depth) [
  | none ↦ (err (bad_frame "missing call boundary delimiter"), s)
  | some frame ↦ elim frame.delimiter [
    | none ↦ (err (bad_frame "missing call boundary delimiter"), s)
    | some kind ↦ release_kind kind s
  ]
]

abbrev pub same_tags : List RefTag → List ValType → Bool
same_tags (tag ∷ tags) (ty ∷ tys) = tag_eq tag (expected_tag ty) && same_tags tags tys
same_tags _ _ = true

unfoldable pub validate_result_tags : ℕ → List ValType → Execution → Result (Unit {0})
validate_result_tags base tys s =
    if not (in_lockstep s) || ltb (length s.values) base
    then err (bad_stack "invalid result stack boundary")
    else if not (length (drop base s.shadow) == length tys)
    then err (bad_results "wrong number of execution results")
    else if not (same_tags (drop base s.shadow) tys)
    then err (bad_results "execution result tag mismatch")
    else ok tt

abbrev pub cut_to : ℕ → ℕ → Execution → Execution
cut_to value_base stop_depth s = record (truncate value_base s) {
  frames = take stop_depth s.frames;
}

unfoldable pub take_results : ℕ → ℕ → List ValType → M Execution (List Cell)
take_results value_base stop_depth result_tys = do
  in_bounds ←
      gets
        λ s. in_lockstep s && leb value_base (length s.values) && leb stop_depth (length s.frames)
  require in_bounds (bad_frame "invalid completed call boundary")
  reads (validate_result_tags value_base result_tys)
  release_reentry stop_depth
  results ← gets (λ s. drop value_base s.values)
  modify (cut_to value_base stop_depth)
  pure results

unfoldable pub discard_to : ℕ → ℕ → M Execution (Unit {0})
discard_to value_base stop_depth = do
  in_bounds ←
      gets
        λ s. in_lockstep s && leb value_base (length s.values) && leb stop_depth (length s.frames)
  require in_bounds (bad_frame "invalid failed call boundary")
  release_reentry stop_depth
  modify (cut_to value_base stop_depth)

-- The last delimiter, with its depth: frames are counted from `depth` on.
unfoldable pub last_boundary : List Frame → ℕ → Option (ℕ × ℕ)
last_boundary [] depth = none
last_boundary (frame ∷ frames) depth = elim (last_boundary frames (depth + 1)) [
  | some found ↦ some found
  | none ↦ if is_some frame.delimiter then some (depth, frame.locals_base) else none
]

unfoldable pub discard_current_call : M Execution (ℕ × ℕ)
discard_current_call = do
  found ← reads (λ s.
      ok_or (last_boundary s.frames 0) (bad_frame "missing call boundary during panic cleanup"))
  discard_to found.1 found.0
  pure (found.1, found.0)

abbrev pub host_reentry_reserve : ℕ
host_reentry_reserve = 4096

abbrev pub total_error : Error
total_error = bad_frame "execution stack byte size overflow"

-- `size_of::<Frame>()` is the compiler's.
unfoldable pub stack_bytes : ℕ → Execution → Result ℕ
stack_bytes frame_bytes s =
    and_then
      (ok_or (checked_mul (length s.values) slot_bytes)
        (bad_frame "operand stack byte size overflow"))
      λ values.
        and_then
          (ok_or (checked_mul (length s.frames) frame_bytes)
            (bad_frame "frame stack byte size overflow"))
          λ frames.
            and_then
              (ok_or (checked_mul s.host_reentry_depth host_reentry_reserve)
                (bad_frame "host re-entry byte size overflow"))
              λ reentry.
                and_then (ok_or (checked_add values (length s.shadow)) total_error) λ with_tags.
                  and_then (ok_or (checked_add with_tags frames) total_error)
                    λ with_frames. ok_or (checked_add with_frames reentry) total_error
