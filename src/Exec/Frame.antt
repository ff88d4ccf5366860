-- ===== src/Exec/Frame.antt =====
-- exec/frame.rs: calls, branches, returns and boundary frames.
pub mod Moves
use submilli_wasm.Base.{
  ℕ, ◌+◌, ◌-◌, ◌*◌, Option, none, some, Bool, true, false, not, ◌&&◌, ◌||◌, List, [], ◌∷◌, ◌++◌,
  map, length, get_elem?, take, drop, slice, splice, leb, ltb, ◌==◌, if◌then◌else◌,
}
use submilli_wasm.Error.{
  Result, ok, err, Error, panicked, ◌>>=◌ as and_then, ok_or, bad_stack, bad_frame, bad_results,
}
use submilli_wasm.State.{M, ◌>>=◌, ◌>>◌, then_run, pure, lift, gets, reads, modify}
use submilli_wasm.Word.{u32_max, checked_add, checked_sub, checked_mul}
use submilli_wasm.Exec.Value.{IrVal, Val, ValType}
use submilli_wasm.Exec.Cell.{Cell, RefTag, slot_bytes, tag_eq, of_val, encode, expected_tag}
use submilli_wasm.Exec.Execution.{
  Delimiter, CompiledFunc, BranchTarget, Frame, Execution, last?, index, slice_from, truncate,
  append,
}
use submilli_wasm.Exec.Execution
use submilli_wasm.Exec.Stack.{in_lockstep, push_default, require}

abbrev pub is_some {ℓ} : {A : Type ℓ} → Option A → Bool
is_some none = false
is_some (some a) = true

-- `v.copy_within(src..v.len(), dst); v.truncate(dst + (v.len() - src))`. `copy_within` panics on a
-- range that is not within the vector and on a destination that the range does not fit behind.
unfoldable pub move_down {ℓ} : {A : Type ℓ} → ℕ → ℕ → List A → Result (List A)
move_down src dst xs =
    if ltb (length xs) src || ltb src dst
    then err panicked
    else ok (take (dst + (length xs - src)) (splice xs dst (slice xs src (length xs - src))))

-- The two stacks, the values first.
unfoldable pub move_stacks : ℕ → ℕ → M Execution (Unit {0})
move_stacks src dst s = elim (move_down src dst s.values) [
  | err e ↦ (err e, s)
  | ok values ↦
      let s' = record s { values = values } in
      elim (move_down src dst s.shadow) [
        | err e ↦ (err e, s')
        | ok shadow ↦ (ok tt, record s' { shadow = shadow })
      ]
]

-- `len - n` of a `usize`: past 0, the copy that follows panics.
abbrev pub index_below : ℕ → ℕ → Result ℕ
index_below len n = ok_or (checked_sub len n) panicked

unfoldable pub push_locals : List IrVal → Execution → Execution
push_locals [] s = s
push_locals (ty ∷ tys) s = push_locals tys (push_default ty s)

unfoldable pub caller_floor : Execution → ℕ
caller_floor s = elim (last? s.frames) [ none ↦ 0 | some frame ↦ frame.operand_base ]

-- The checks of `push_call`: where the locals begin, and where the operands do.
unfoldable pub call_bases : CompiledFunc → Execution → Result (ℕ × ℕ)
call_bases func s =
    if not (in_lockstep s)
    then err (bad_stack "value/shadow length mismatch")
    else if ltb u32_max (length s.values)
    then err (bad_frame "operand stack length exceeds u32")
    else if ltb (length s.values) (caller_floor s)
    then err (bad_stack "call parameter underflow")
    else if ltb (length s.values - caller_floor s) func.n_params
    then err (bad_stack "call parameter underflow")
    else if ltb u32_max (length func.local_types)
    then err (bad_frame "local count exceeds u32")
    else if ltb u32_max (length s.values + length func.local_types)
    then err (bad_frame "frame operand base exceeds u32")
    else ok (length s.values - func.n_params, length s.values + length func.local_types)

abbrev pub push_frame : Frame → Execution → Execution
push_frame frame s = record s { frames = s.frames ++ frame ∷ [] }

-- The callee's frame, above its parameters and its defaulted locals.
abbrev pub call_frame : ℕ → ℕ → CompiledFunc → ℕ × ℕ → Frame
call_frame instance_of func_index func bases = record {
  func = func;
  ip = 0;
  locals_base = bases.0;
  operand_base = bases.1;
  instance_of = instance_of;
  func_index = func_index;
  delimiter = none;
}

unfoldable pub push_call : ℕ → ℕ → CompiledFunc → M Execution (Unit {0})
push_call instance_of func_index func = do
  bases ← reads (call_bases func)
  modify (push_locals func.local_types)
  modify (push_frame (call_frame instance_of func_index func bases))

abbrev pub boundary_frame : Delimiter → ℕ → CompiledFunc → ℕ → Frame
boundary_frame kind instance_of func base = record {
  func = func;
  ip = 0;
  locals_base = base;
  operand_base = base;
  instance_of = instance_of;
  func_index = 0;
  delimiter = some kind;
}

unfoldable pub push_delimiter : Delimiter → ℕ → CompiledFunc → M Execution (Unit {0})
push_delimiter kind instance_of func s =
    if not (in_lockstep s)
    then (err (bad_stack "value/shadow length mismatch"), s)
    else if ltb u32_max (length s.values)
    then (err (bad_frame "operand stack length exceeds u32"), s)
    else (ok tt, push_frame (boundary_frame kind instance_of func (length s.values)) s)

-- Where the kept operands stand, and where they go.
unfoldable pub branch_places : BranchTarget → Execution → Result (ℕ × ℕ)
branch_places t s =
    and_then (index_below (length s.values) t.keep)
      λ src. and_then (index_below src t.pop) λ dst. ok (src, dst)

unfoldable pub take_branch : BranchTarget → M Execution (Unit {0})
take_branch t s =
    if not (in_lockstep s)
    then (err (bad_stack "value/shadow length mismatch"), s)
    else elim (checked_add t.keep t.pop) [
      | none ↦ (err (bad_stack "branch stack fixup overflow"), s)
      | some needed ↦ elim (last? s.frames) [
        | none ↦ (err (bad_frame "missing branch frame"), s)
        | some frame ↦
            if ltb (length s.values) (frame.operand_base + needed)
            then (err (bad_stack "branch stack fixup underflow"), s)
            else then_run (λ places. move_stacks places.0 places.1) (branch_places t s, s)
      ]
    ]

unfoldable pub top : Execution → Result Frame
top s = elim (last? s.frames) [
  | none ↦ err (bad_frame "missing current frame")
  | some frame ↦
      if is_some frame.delimiter
      then err (bad_frame "delimiter used as executable frame")
      else ok frame
]

-- The checks of `do_return` on the frame, which give where the results go.
unfoldable pub return_base : ℕ → Bool → Frame → Execution → Result ℕ
return_base n tail frame s =
    if is_some frame.delimiter
    then err (bad_frame "cannot return from a delimiter")
    else if ltb (length s.values) frame.operand_base
    then err (bad_stack "return stack below frame floor")
    else elim (checked_add frame.locals_base n) [
      | none ↦ err (bad_stack "return result position overflow")
      | some result_end ↦
          let available = length s.values - frame.operand_base in
          if ltb frame.operand_base frame.locals_base
            || ltb (length s.values) result_end
            || ltb available n
            || (not tail && not (available == n))
          then err (bad_results "wrong number of frame results")
          else ok frame.locals_base
    ]

abbrev pub pop_frame : Execution → Execution
pop_frame s = record s { frames = take (length s.frames - 1) s.frames }

unfoldable pub move_results : ℕ → ℕ → M Execution (Unit {0})
move_results n dst s = then_run (λ src. move_stacks src dst) (index_below (length s.values) n, s)

unfoldable pub do_return : ℕ → ℕ → Bool → M Execution Bool
do_return n stop_depth tail s =
    if leb (length s.frames) stop_depth || not (in_lockstep s)
    then (err (bad_frame "invalid return boundary"), s)
    else elim (last? s.frames) [
      | none ↦ (err (bad_frame "frame stack underflow"), s)
      | some frame ↦ elim (return_base n tail frame s) [
        | err e ↦ (err e, s)
        | ok dst ↦
            then_run (λ done s'. (ok (length s'.frames == stop_depth), s'))
              (move_results n dst (pop_frame s))
      ]
    ]
