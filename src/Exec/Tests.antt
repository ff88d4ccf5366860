-- ===== src/Exec/Tests.antt =====
-- Instances of the theorems on exec/ at concrete executions: the data, and the integer instructions.
pub mod Calls
pub mod Accesses
pub mod Exceptions
use submilli_wasm.Base.{
  ℕ, ◌+◌, ◌≤◌, ◌<◌, ◌≡◌, ◌≢◌, ◌↔◌, ◌⊎◌, inr, refl, false, none, List, [], ◌∷◌, ◌++◌, take, drop,
  get_elem?, length, arith,
}
use submilli_wasm.Error.{ok, err, panicked, bad_stack, bad_frame}
use submilli_wasm.Word.{checked_add}
use submilli_wasm.State.{then_run}
use submilli_wasm.Store.Entity.{MemoryEntity}
use submilli_wasm.Exec.Value.{ValType}
use submilli_wasm.Exec.Cell.{RefTag, from_i32, expected_tag, tag_byte}
use submilli_wasm.Exec.Execution.{Delimiter, CompiledFunc, BranchTarget, Frame, Execution}
use submilli_wasm.Exec.Stack.Sound.{Place, Ready}
use submilli_wasm.Exec.Numeric.{exec_numeric}
use submilli_wasm.Exec.Numeric
use submilli_wasm.Exec.Numeric.Sound.{exec_numeric_no_panic}
use submilli_wasm.Exec.Frame.{
  take_branch, do_return, push_delimiter, push_call, push_locals, call_bases, caller_floor,
  boundary_frame, call_frame,
}
use submilli_wasm.Exec.Frame.Moves.{
  without, take_branch_moves, take_branch_refuses, do_return_moves, do_return_refuses,
}
use submilli_wasm.Exec.Boundary.{
  enter_depth, enter_call, validate_result_tags, discard_current_call, take_results,
}
use submilli_wasm.Exec.Boundary.Restore.{
  Entered, enter_call_restores, discard_current_call_lem, take_results_lem,
}
use submilli_wasm.Exec.Boundary.Enter.{enter_call_discarded}
use submilli_wasm.Base.{subst, zero, suc}
use submilli_wasm.Word.{u64_max}
use submilli_wasm.Error.{◌>>=◌}
use submilli_wasm.Exec.Arith.{wrapping_sub, div_u, i32_binop, i32_try_binop}
use submilli_wasm.Exec.Numeric.Results.{
  Operands, replaced, settled, i32_binop_lem, i32_try_binop_lem,
}
use submilli_wasm.Exec.Memory
use submilli_wasm.Exec.Memory.{exec_memory}
use submilli_wasm.Exec.Memory.Sound.{Kept}
use submilli_wasm.Exec.Memory.Linked.{Linked}
use submilli_wasm.Exec.Memory.Total.{exec_memory_no_panic}
use submilli_wasm.Exec.Machine.{Machine, mem, entity}
use submilli_wasm.Exec.Memory.{
  MemArg, resolve, checked_range, effective_address, read_range, write_range, load_n, store_n, oob,
}
use submilli_wasm.Exec.Memory.Bounds.{
  checked_range_iff, checked_range_traps, effective_address_iff, effective_address_traps,
}
use submilli_wasm.Exec.Memory.Sound.{Safe, store-load, load_n-Safe, store_n-Safe}
use submilli_wasm.Base.{true, some}
use submilli_wasm.State.{then_run}
use submilli_wasm.Exec.Cell.{refkind_of_heap}
use submilli_wasm.Exec.Value.{Val, ValType, HeapType, RefKind}
use submilli_wasm.Exec.Value
use submilli_wasm.Exec.Stack.{push, pop_typed}
use submilli_wasm.Exec.Stack.Typed.{HasType, push-pop_typed}

abbrev pub no_params : CompiledFunc
no_params = record { n_params = 0; n_results = 1; local_types = []; handlers = [] }

abbrev pub outer_frame : Frame
outer_frame = record {
  func = no_params;
  ip = 0;
  locals_base = 0;
  operand_base = 0;
  instance_of = 0;
  func_index = 0;
  delimiter = none;
}

abbrev pub two_operands : Execution
two_operands = record {
  values = from_i32 7 ∷ from_i32 3 ∷ [];
  shadow = RefTag.untagged ∷ RefTag.untagged ∷ [];
  frames = outer_frame ∷ [];
  host_reentry_depth = 0;
}

abbrev pub outer_place : Place
outer_place = record {
  base = 0;
  floor = 0;
  frames = outer_frame ∷ [];
  depth = 0;
  below = [];
  tags = [];
  frame = outer_frame;
  top = refl;
  at_floor = refl;
  ordered = omega arith;
}

pub two_operands-Ready : Ready outer_place two_operands
two_operands-Ready = record {
  same_frames = refl;
  same_depth = refl;
  lockstep = refl;
  above = omega arith;
  cells = refl;
  marks = refl;
}

exec_numeric_no_panic_example :
    ((exec_numeric Numeric.NumericOp.i32_div_s two_operands).0 ≢ err panicked)
    × Ready outer_place (exec_numeric Numeric.NumericOp.i32_div_s two_operands).1
exec_numeric_no_panic_example =
    exec_numeric_no_panic outer_place Numeric.NumericOp.i32_div_s two_operands two_operands-Ready

two_operands-Operands : Operands [] [] (from_i32 7) (from_i32 3) two_operands
two_operands-Operands = record {
  values_eq = refl;
  shadow_eq = refl;
  counts = refl;
  frame = outer_frame;
  top = refl;
  above = omega arith;
}

i32_binop_lem_example :
    i32_binop (wrapping_sub 32) two_operands ≡ (ok tt, replaced [] [] two_operands (from_i32 4))
i32_binop_lem_example =
    i32_binop_lem (wrapping_sub 32) [] [] 7 3 two_operands (omega arith) (omega arith)
      two_operands-Operands

i32_try_binop_lem_example :
    i32_try_binop div_u two_operands
    ≡ settled [] [] two_operands (div_u 7 3 >>= λ v. ok (from_i32 v))
i32_try_binop_lem_example =
    i32_try_binop_lem div_u [] [] 7 3 two_operands (omega arith) (omega arith) two_operands-Operands

push-pop_typed_example :
    then_run
      (λ _. pop_typed (ValType.ref true HeapType.eq))
      (push (Val.any_ref (some 5)) two_operands)
    ≡ (ok (Val.any_ref (some 5)), two_operands)
unfolding refkind_of_heap
push-pop_typed_example =
    push-pop_typed (Val.any_ref (some 5)) (ValType.ref true HeapType.eq) two_operands outer_frame
      (HasType.reference RefKind.any (some 5) true HeapType.eq refl (omega arith, omega arith)) refl
      (omega arith) refl
