-- ===== src/Exec/Tests/Accesses.antt =====
-- Instances of the theorems on exec/memory.rs at a concrete memory.
use submilli_wasm.Base.{
  ℕ, ◌+◌, ◌≤◌, ◌<◌, ◌≡◌, ◌≢◌, ◌↔◌, ◌⊎◌, refl, false, none, List, [], ◌∷◌, get_elem?, length, arith,
}
use submilli_wasm.Error.{ok, err, panicked}
use submilli_wasm.Word.{checked_add}
use submilli_wasm.Store.Entity.{MemoryEntity}
use submilli_wasm.Base.{subst, zero, suc}
use submilli_wasm.Word.{u64_max}
use submilli_wasm.Exec.Memory
use submilli_wasm.Exec.Memory.{exec_memory}
use submilli_wasm.Exec.Memory.Sound.{Kept}
use submilli_wasm.Exec.Memory.Linked.{Linked}
use submilli_wasm.Exec.Memory.Total.{exec_memory_no_panic}
use submilli_wasm.Exec.Machine.{Machine, mem, entity}
use submilli_wasm.Exec.Memory.{
  MemArg, resolve, checked_range, effective_address, read_range, write_range, load_n, store_n, oob,
}
use submilli_wasm.Exec.Memory.Bounds.{
  checked_range_iff, checked_range_traps, effective_address_iff, effective_address_traps,
}
use submilli_wasm.Exec.Memory.Sound.{Safe, store-load, load_n-Safe, store_n-Safe}
use submilli_wasm.Exec.Tests.{two_operands, outer_place, two_operands-Ready}

abbrev eight_bytes : MemoryEntity
eight_bytes = record {
  bytes = 0 ∷ 1 ∷ 2 ∷ 3 ∷ 4 ∷ 5 ∷ 6 ∷ 7 ∷ [];
  ty = record { minimum = 0; maximum = none; is_64 = false };
}

abbrev machine : Machine
machine = record {
  exec = two_operands;
  memories = eight_bytes ∷ [];
  handles = 0 ∷ [];
  datas = [];
  dropped_data = [];
}

abbrev at_one : MemArg
at_one = record { offset = 1; memory = 0 }

load_n-Safe_example : Safe outer_place machine (load_n 4 [] at_one machine)
unfolding resolve mem entity
load_n-Safe_example =
    load_n-Safe outer_place 4 [] at_one at_one 0 eight_bytes machine refl refl refl (omega arith)
      two_operands-Ready

store_n-Safe_example : Safe outer_place machine (store_n [] at_one (9 ∷ 9 ∷ []) machine)
unfolding resolve mem entity
store_n-Safe_example =
    store_n-Safe outer_place [] at_one at_one 0 eight_bytes (9 ∷ 9 ∷ []) machine refl refl refl
      (omega arith) two_operands-Ready

store-load_example :
    (written : List ℕ) × ((write_range eight_bytes.bytes 3 (9 ∷ 9 ∷ []) ≡ ok written)
      × ((length written ≡ 8)
          × ((read_range written 3 2 ≡ ok (9 ∷ 9 ∷ []))
              × ((i : ℕ)
                  → (i < 3) ⊎ (5 ≤ i)
                  → get_elem? written i ≡ get_elem? eight_bytes.bytes i))))
unfolding effective_address checked_add
store-load_example = store-load eight_bytes.bytes (9 ∷ 9 ∷ []) 1 2 3 (omega arith) refl

checked_range_iff_example : (checked_range 3 5 8 ≡ ok 8) ↔ ((8 ≡ 3 + 5) × (8 ≤ 8))
checked_range_iff_example = checked_range_iff 3 5 8 8 (omega arith)

checked_range_traps_example : checked_range 3 6 8 ≡ err oob
checked_range_traps_example = checked_range_traps 3 6 8 (omega arith)

effective_address_iff_example : (effective_address 4 1 8 3 ≡ ok 4) ↔ ((4 ≡ 3 + 1) × (4 + 4 ≤ 8))
effective_address_iff_example = effective_address_iff 4 1 8 3 4 (omega arith)

effective_address_traps_example : effective_address 4 2 8 3 ≡ err oob
effective_address_traps_example = effective_address_traps 4 2 8 3 (omega arith)

machine-Linked : Linked machine
unfolding mem entity
machine-Linked = record {
  memories = handles_named;
  segments = λ k segment e. ground arith;
  flags = refl;
}
  where
    handles_named :
        (i h : ℕ)
        → mem i machine ≡ ok h
        → (e : MemoryEntity) × ((entity h machine ≡ ok e) × (length e.bytes ≤ u64_max))
    handles_named zero h e =
        let first : 0 ≡ h = ground arith in
        subst (λ k. (m : MemoryEntity) × ((entity k machine ≡ ok m) × (length m.bytes ≤ u64_max)))
          first (eight_bytes, (refl, omega arith))
    handles_named (suc i) h e = ground arith

exec_memory_no_panic_example :
    ((exec_memory [] (Memory.MemoryOp.i32_load at_one) machine).0 ≢ err panicked)
    × Kept outer_place machine (exec_memory [] (Memory.MemoryOp.i32_load at_one) machine).1
unfolding resolve
exec_memory_no_panic_example =
    exec_memory_no_panic outer_place [] (Memory.MemoryOp.i32_load at_one) machine machine-Linked
      (at_one, (refl, omega arith)) two_operands-Ready
