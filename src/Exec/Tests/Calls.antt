-- ===== src/Exec/Tests/Calls.antt =====
-- Instances of the theorems on exec/frame.rs and exec/mod.rs at concrete executions.
use submilli_wasm.Base.{◌≡◌, Bool, ◌≢◌, inr, refl, false, [], ◌∷◌, ◌++◌, take, drop, arith}
use submilli_wasm.Error.{ok, err, panicked, bad_stack}
use submilli_wasm.Word.{checked_add}
use submilli_wasm.State.{then_run}
use submilli_wasm.Exec.Value.{ValType}
use submilli_wasm.Exec.Cell.{RefTag, from_i32, expected_tag, tag_byte}
use submilli_wasm.Exec.Execution.{Delimiter, CompiledFunc, BranchTarget, Frame, Execution}
use submilli_wasm.Exec.Frame.{
  take_branch, do_return, push_delimiter, push_call, push_locals, call_bases, caller_floor,
  boundary_frame, call_frame,
}
use submilli_wasm.Exec.Frame.Moves.{
  without, take_branch_moves, take_branch_refuses, do_return_moves, do_return_refuses, Misfit,
}
use submilli_wasm.Exec.Boundary.{
  enter_depth, enter_call, validate_result_tags, discard_current_call, take_results,
}
use submilli_wasm.Exec.Boundary.Restore.{
  Entered, enter_call_restores, discard_current_call_lem, take_results_lem,
}
use submilli_wasm.Exec.Boundary.Enter.{enter_call_discarded}
use submilli_wasm.Exec.Tests.{no_params, outer_frame, two_operands}

abbrev drop_one : BranchTarget
drop_one = record { ip = 5; keep = 1; pop = 1 }

take_branch_moves_example : take_branch drop_one two_operands ≡ (
  ok tt,
  record two_operands {
    values = without 1 1 two_operands.values;
    shadow = without 1 1 two_operands.shadow;
  },
)
take_branch_moves_example =
    take_branch_moves drop_one outer_frame two_operands refl refl (omega arith) (omega arith)

abbrev drop_two : BranchTarget
drop_two = record { ip = 5; keep = 1; pop = 2 }

take_branch_refuses_example :
    ((take_branch drop_two two_operands).0 ≢ ok tt)
    × (((take_branch drop_two two_operands).0 ≢ err panicked)
        × ((take_branch drop_two two_operands).1 ≡ two_operands))
take_branch_refuses_example =
    take_branch_refuses drop_two outer_frame two_operands refl (inr (omega arith))

abbrev callee_frame : Frame
callee_frame = record outer_frame { locals_base = 0; operand_base = 1 }

abbrev returning : Execution
returning = record two_operands { frames = outer_frame ∷ callee_frame ∷ [] }

do_return_moves_example : do_return 1 0 false returning ≡ (
  ok false,
  record returning {
    values = take 0 returning.values ++ drop 1 returning.values;
    shadow = take 0 returning.shadow ++ drop 1 returning.shadow;
    frames = outer_frame ∷ [];
  },
)
do_return_moves_example =
    do_return_moves 1 0 false (outer_frame ∷ []) callee_frame returning refl (omega arith) refl refl
      (omega arith) (omega arith) (omega arith) λ _. refl

do_return_refuses_example :
    ((again : Bool) → (do_return 1 0 false two_operands).0 ≢ ok again)
    × (((do_return 1 0 false two_operands).0 ≢ err panicked)
        × ((do_return 1 0 false two_operands).1 ≡ two_operands))
do_return_refuses_example =
    do_return_refuses 1 0 false outer_frame two_operands refl
      (inr (inr (Misfit.others refl (λ q. omega arith))))

abbrev three_params : CompiledFunc
three_params = record { n_params = 3; n_results = 1; local_types = []; handlers = [] }

enter_call_restores_example :
    (bad_stack "call parameter underflow" ≢ panicked) × (two_operands ≡ two_operands)
unfolding enter_call enter_depth checked_add push_delimiter push_call then_run call_bases
    caller_floor
enter_call_restores_example =
    enter_call_restores Delimiter.host_reentry 0 4 three_params [] two_operands
      (bad_stack "call parameter underflow") two_operands refl

abbrev boundary : Frame
boundary = boundary_frame Delimiter.host_reentry 0 no_params 2

abbrev entry : Frame
entry = call_frame 0 4 no_params (2, 2)

-- `two_operands` after the host has entered a function without parameters.
abbrev in_call : Execution
in_call = record two_operands {
  frames = outer_frame ∷ boundary ∷ entry ∷ [];
  host_reentry_depth = 1;
}

in_call_entered : enter_call Delimiter.host_reentry 0 4 no_params [] two_operands ≡ (ok tt, in_call)
unfolding enter_call enter_depth checked_add push_delimiter push_call then_run call_bases
    caller_floor push_locals
in_call_entered = refl

enter_call_discarded_example : discard_current_call in_call ≡ (ok (2, 1), two_operands)
enter_call_discarded_example =
    enter_call_discarded Delimiter.host_reentry 0 4 no_params [] two_operands in_call
      in_call_entered

-- The call has pushed an operand and called on.
abbrev deeper : Execution
deeper = record in_call {
  values = in_call.values ++ from_i32 5 ∷ [];
  shadow = in_call.shadow ++ RefTag.untagged ∷ [];
  frames = outer_frame ∷ boundary ∷ entry ∷ callee_frame ∷ [];
}

deeper-Entered : Entered Delimiter.host_reentry (entry ∷ callee_frame ∷ []) two_operands deeper
unfolding enter_depth checked_add
deeper-Entered = record {
  boundary = boundary;
  outer_lockstep = refl;
  lockstep = refl;
  values_above = (from_i32 5 ∷ [], refl);
  tags_above = (RefTag.untagged ∷ [], refl);
  framed = refl;
  marked = refl;
  placed = refl;
  counted = refl;
}

discard_current_call_lem_example : discard_current_call deeper ≡ (ok (2, 1), two_operands)
discard_current_call_lem_example =
    discard_current_call_lem Delimiter.host_reentry (entry ∷ callee_frame ∷ []) two_operands deeper
      deeper-Entered refl

-- The call has returned one result to its boundary.
abbrev finished : Execution
finished = record deeper { frames = outer_frame ∷ boundary ∷ [] }

finished-Entered : Entered Delimiter.host_reentry [] two_operands finished
unfolding enter_depth checked_add
finished-Entered = record {
  boundary = boundary;
  outer_lockstep = refl;
  lockstep = refl;
  values_above = (from_i32 5 ∷ [], refl);
  tags_above = (RefTag.untagged ∷ [], refl);
  framed = refl;
  marked = refl;
  placed = refl;
  counted = refl;
}

finished_valid : validate_result_tags 2 (ValType.i32 ∷ []) finished ≡ ok tt
unfolding validate_result_tags expected_tag tag_byte
finished_valid = refl

take_results_lem_example :
    take_results 2 1 (ValType.i32 ∷ []) finished ≡ (ok (from_i32 5 ∷ []), two_operands)
take_results_lem_example =
    take_results_lem Delimiter.host_reentry [] two_operands finished finished-Entered
      (ValType.i32 ∷ []) finished_valid
