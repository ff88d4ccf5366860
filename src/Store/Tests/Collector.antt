-- ===== src/Store/Tests/Collector.antt =====
-- Instances of the theorems on store/gc.rs, store/gc_collect.rs and store/grow.rs at a store with
-- two objects, of which a global reaches one, and a host externref behind it.
use submilli_wasm.Base.{
  ℕ, zero, suc, ◌+◌, ◌%◌, ◌^◌, ◌≤◌, ◌<◌, ◌≡◌, ◌⊎◌, refl, subst, true, false, none, some, Option,
  List, [], ◌∷◌, length, get_elem?, arith, if◌then◌else◌, ltb,
}
use submilli_wasm.Base.Bytes.{to_le_bytes}
use submilli_wasm.Word.{saturating_add, checked_add}
use submilli_wasm.Worklist.{Traced}
use submilli_wasm.Error.{Result, ok}
use submilli_wasm.Exec.Value.{RefKind, HeapType, ValType, Val}
use submilli_wasm.Canon.Layout.{StorageType}
use submilli_wasm.Store.Reclaim.{ReclaimArena, sweep}
use submilli_wasm.Store.Reclaim.Allocation.{IsArena, Allocated}
use submilli_wasm.Store.Reclaim.Sweep.{Rounds}
use submilli_wasm.Store.Reclaim.Bytes.{total}
use submilli_wasm.Store.Limits.{StoreLimits, default, store_limits, sync}
use submilli_wasm.Store.Gc.{
  GcHeap, GcObject, AnyRefHandle, extern_wrapper, new_struct, byte_size, alloc_object, sweep_heap,
  clear_marks, is_marked, anyref_handle_i31, decode_anyref_handle, fits,
}
use submilli_wasm.Store.Gc.Handle.{decode_anyref_handle-anyref_handle_i31}
use submilli_wasm.Store.Gc.Arena.{arena_of, with_arena, sweep_heap-sweep, alloc_object-Allocated}
use submilli_wasm.Store.Collect.{
  ExternEntry, StoreInner, extern_size, roots_of, collect, trace_reachable,
}
use submilli_wasm.Worklist.{Among}
use submilli_wasm.Exec.Cell.{refkind_of_heap}
use submilli_wasm.Base.Bytes.{from_le_bytes}
use submilli_wasm.Base.{◌↔◌}
use submilli_wasm.Canon.Layout.{
  for_struct, struct_of, lay_out, pub_field_slot, pub_val_slot, slot_width,
}
use submilli_wasm.Store.Collect.{Reached, trace_object, seed_fields, seed_slot, seed_handle}
use submilli_wasm.Store.Collect.Holds.{Holds, trace_object-Holds}
use submilli_wasm.Store.Collect.Laws.{trace_bound, trace-Tracing, trace_reachable-Traced}
use submilli_wasm.Store.Collect.Reclaims.{IsCollectable}
use submilli_wasm.Store.Collect.Correct.{Collected, collect-Collected}
use submilli_wasm.Store.Budget.{GcStore, operand_roots, roots_from, gc_reserve_host, grow_for}
use submilli_wasm.Store.Budget.Reserved.{Growth, grow_for-Growth}
use submilli_wasm.Store.Budget.Host.{Answered, gc_reserve_host-Answered}

abbrev one_reference : ℕ → Result (List StorageType)
one_reference id = ok (StorageType.val_type (ValType.ref true HeapType.any) ∷ [])

abbrev bytes_only : ℕ → Result StorageType
bytes_only id = ok StorageType.i8

unfoldable pub two_objects : List (Option GcObject)
unfolding extern_wrapper new_struct to_le_bytes
two_objects = some (extern_wrapper 0) ∷ some (new_struct 5 (to_le_bytes 4 0)) ∷ []

abbrev pub heap_of_two : GcHeap
heap_of_two = record {
  slots = two_objects;
  generations = 0 ∷ 0 ∷ [];
  free = [];
  used = 160;
  reserved = 0;
  reservation = 0;
  next_grow = 65536;
  marks = [];
  collecting = true;
}

abbrev pub store_of_two : StoreInner
store_of_two = record {
  heap = heap_of_two;
  externrefs = record { slots = some ExternEntry.host ∷ []; generations = 0 ∷ []; free = [] };
  exns = record { slots = []; generations = []; free = [] };
  globals = Val.any_ref (some 0) ∷ [];
  tables = [];
  segments = [];
  pending_exception = none;
  gc_roots = [];
}

full-IsArena :
    {E : Type 0} (slots : List (Option E)) (generations : List ℕ)
    → length slots ≡ length generations
    → length slots ≤ 2 ^ 32
    → ((i : ℕ) → get_elem? slots i ≡ some none → ⊥)
    → IsArena (record { slots = slots; generations = generations; free = [] })
full-IsArena slots generations same small full = record {
  parallel = same;
  addressable = small;
  freed = λ i l. elim l [ ];
  reusable = λ i h. absurd (full i h);
  distinct = tt;
}

two_full :
    {E : Type 0} (a b : E) (i : ℕ)
    → Path (Option (Option E)) (get_elem? (some a ∷ some b ∷ []) i) (some none)
    → ⊥
two_full a b zero h = ground arith
two_full a b (suc zero) h = ground arith
two_full a b (suc (suc i)) h = ground arith

heap_of_two-IsArena : IsArena (arena_of heap_of_two)
unfolding two_objects
heap_of_two-IsArena = full-IsArena _ _ refl (omega arith) (two_full _ _)

one_full :
    {E : Type 0} (a : E) (i : ℕ)
    → Path (Option (Option E)) (get_elem? (some a ∷ []) i) (some none)
    → ⊥
one_full a zero h = ground arith
one_full a (suc i) h = ground arith

pub store_of_two-IsCollectable : IsCollectable store_of_two
unfolding byte_size extern_size saturating_add two_objects
store_of_two-IsCollectable = record {
  heap_order = heap_of_two-IsArena;
  extern_order = full-IsArena _ _ refl (omega arith) (one_full _);
  exn_order = full-IsArena _ _ refl (omega arith) (λ i h. ground arith);
  unmarked = refl;
  accounts = refl;
  bounded = omega arith;
}

abbrev enough : ℕ
enough = suc (trace_bound one_reference bytes_only store_of_two (roots_of [] store_of_two))

collect-Collected_example :
    Collected one_reference bytes_only [] store_of_two
      (collect one_reference bytes_only enough [] store_of_two)
collect-Collected_example =
    collect-Collected one_reference bytes_only enough [] store_of_two store_of_two-IsCollectable
      refl (omega arith)

trace_reachable-Traced_example :
    Traced
      (trace-Tracing one_reference bytes_only store_of_two)
      (roots_of [] store_of_two)
      (trace_reachable one_reference bytes_only enough store_of_two (roots_of [] store_of_two))
trace_reachable-Traced_example =
    trace_reachable-Traced one_reference bytes_only store_of_two enough (roots_of [] store_of_two)
      refl (omega arith)

total_of_two : total byte_size heap_of_two.slots ≡ 96
unfolding byte_size saturating_add two_objects
total_of_two = refl

sweep_heap-sweep_example :
    (b : ℕ) × ((a : ReclaimArena GcObject) × ((used : ℕ) × ((sweep
              (is_marked heap_of_two)
              byte_size
              (arena_of heap_of_two)
            ≡ (ok b, a))
          × ((sweep_heap heap_of_two ≡ (ok tt, clear_marks (with_arena heap_of_two a used)))
              × ((used + total byte_size heap_of_two.slots ≡ 160 + total byte_size a.slots)
                  × ((total byte_size a.slots ≤ total byte_size heap_of_two.slots)
                      × Rounds
                          (is_marked heap_of_two)
                          byte_size
                          0
                          (length heap_of_two.slots)
                          (arena_of heap_of_two)
                          a))))))
sweep_heap-sweep_example =
    sweep_heap-sweep heap_of_two heap_of_two-IsArena (omega (arith, total_of_two))

alloc_object-Allocated_example :
    (index : ℕ) × ((a : ReclaimArena GcObject) × ((alloc_object (new_struct 7 []) heap_of_two
          ≡ (ok index, with_arena heap_of_two a (saturating_add 160 (byte_size (new_struct 7 [])))))
        × ((index < 0x7fff_ffff) × Allocated (new_struct 7 []) (arena_of heap_of_two) a index)))
unfolding two_objects
alloc_object-Allocated_example =
    alloc_object-Allocated (new_struct 7 []) heap_of_two heap_of_two-IsArena (omega arith)

-- -3 as an `i31`.
decode_anyref_handle-anyref_handle_i31_example :
    (decode_anyref_handle (anyref_handle_i31 4294967293)
      ≡ AnyRefHandle.i31
          (4294967293 % 2 ^ 31 + (if ltb (4294967293 % 2 ^ 31) (2 ^ 30) then 0 else 2 ^ 31)))
    × (((4294967293 < 2 ^ 30) ⊎ (2 ^ 31 + 2 ^ 30 ≤ 4294967293))
        → decode_anyref_handle (anyref_handle_i31 4294967293) ≡ AnyRefHandle.i31 4294967293)
decode_anyref_handle-anyref_handle_i31_example =
    decode_anyref_handle-anyref_handle_i31 4294967293 (omega arith)

abbrev reserving : GcStore StoreLimits
reserving = record {
  inner = store_of_two;
  limiter = some (sync store_limits);
  host = default;
  committed = 0;
  parked = record { values = []; shadow = []; frames = []; host_reentry_depth = 0 };
}

reserving_full : fits reserving.inner.heap 100 ≡ false
unfolding fits checked_add
reserving_full = ground arith

grow_for-Growth_example : Growth 100 reserving (grow_for 100 reserving)
grow_for-Growth_example = grow_for-Growth 100 reserving (omega arith) (omega arith) reserving_full

enough_for :
    (roots : List (ℕ × RefKind))
    → operand_roots reserving.parked ≡ ok roots
    → trace_bound one_reference bytes_only store_of_two (roots_of roots store_of_two) < enough
unfolding operand_roots roots_from
enough_for roots e =
    let same : [] ≡ roots = cc in
    subst
      (λ r. trace_bound one_reference bytes_only store_of_two (roots_of r store_of_two) < enough)
      same (omega arith)

gc_reserve_host-Answered_example :
    Answered 100 reserving (gc_reserve_host one_reference bytes_only enough 100 reserving)
gc_reserve_host-Answered_example =
    gc_reserve_host-Answered 100 one_reference bytes_only enough reserving
      store_of_two-IsCollectable (omega arith) (omega arith) enough_for

-- The second object, whose one field refers to the first.
second_traced :
    trace_object one_reference bytes_only (new_struct 5 (to_le_bytes 4 0)) []
    ≡ ok (Reached.gc 0 ∷ [])
unfolding trace_object new_struct to_le_bytes for_struct struct_of lay_out seed_fields seed_slot
    seed_handle decode_anyref_handle pub_field_slot pub_val_slot slot_width checked_add
    refkind_of_heap from_le_bytes
second_traced = refl

trace_object-Holds_example :
    Among (Reached.gc 0) (Reached.gc 0 ∷ [])
    ↔ Holds one_reference bytes_only (new_struct 5 (to_le_bytes 4 0)) (Reached.gc 0)
trace_object-Holds_example =
    trace_object-Holds one_reference bytes_only (new_struct 5 (to_le_bytes 4 0)) (Reached.gc 0 ∷ [])
      second_traced (Reached.gc 0)
