-- ===== src/Store/Tests.antt =====
-- Instances of the theorems on store/entity.rs and store/grow.rs at concrete memories and tables.
pub mod Collector
pub mod Managed
use submilli_wasm.Base.{
  ℕ, zero, suc, ◌+◌, ◌≡◌, refl, subst, Bool, true, false, none, some, [], ◌∷◌, resize, arith, Every,
  ◌*◌,
}
use submilli_wasm.Store.Entity.{
  MemoryEntity, TableEntity, size_pages, size, fill, grow_memory_entity, grow_table_entity,
  page_size,
}
use submilli_wasm.Store.Entity.Pages.{
  IsMemory, GrowResult, grow_memory_entity-GrowResult, grow_memory_entity_refuses,
}
use submilli_wasm.Store.Entity.Elements.{
  TableGrowResult, Filled, grow_table_entity-TableGrowResult, fill_in_bounds, fill_out_of_bounds,
}
use submilli_wasm.Store.Limits.{
  StoreLimits, default, store_limits, sync, default_memory_ceiling_bytes,
}
use submilli_wasm.Store.Grow.{Store, grow_memory, grow_table}
use submilli_wasm.Store.Grow.Outcome.{
  MemoryOutcome, TableOutcome, grow_memory-MemoryOutcome, grow_table-TableOutcome,
}
use submilli_wasm.Store.Grow.Bounds.{IsBounded, grow_memory_limited, grow_memory_unlimited}
use submilli_wasm.Base.{sym, ◌==◌, inl, inr, suc, get_elem?}
use submilli_wasm.Error.{ok}
use submilli_wasm.Store.Reclaim.{ReclaimArena, alloc, sweep}
use submilli_wasm.Store.Reclaim.Allocation.{IsArena, Listed, Allocated, alloc-Allocated}
use submilli_wasm.Store.Reclaim.Sweep.{Rounds, sweep_lem}

abbrev plenty : ℕ → ℕ → Bool
plenty len additional = true

abbrev memory_one : MemoryEntity
memory_one = record { bytes = []; ty = record { minimum = 0; maximum = some 3; is_64 = false } }

abbrev table_three : TableEntity ℕ
table_three = record {
  elems = 1 ∷ 2 ∷ 3 ∷ [];
  ty = record { minimum = 3; maximum = some 5; is_64 = false };
}

abbrev limits_two_pages : StoreLimits
limits_two_pages = record default { memory_size = some 131072 }

abbrev limited_store : Store ℕ StoreLimits
limited_store = record {
  memories = memory_one ∷ [];
  tables = table_three ∷ [];
  limiter = some (sync store_limits);
  host = limits_two_pages;
}

abbrev unlimited_store : Store ℕ StoreLimits
unlimited_store = record limited_store { limiter = none }

memory_one-IsMemory : IsMemory memory_one
unfolding size_pages
memory_one-IsMemory = record { whole = refl; bounded = omega arith }

Every-one {ℓ} : {A : Type 0} (P : A → Type ℓ) (x : A) → P x → Every P (x ∷ [])
Every-one P x p zero a e = subst P (cc) p
Every-one P x p (suc i) a e = ground arith

grow_memory_limited_example :
    Every (IsBounded 131072) (grow_memory plenty 0 2 limited_store).1.memories
grow_memory_limited_example =
    grow_memory_limited plenty 131072 limited_store 0 2 memory_one refl refl refl
      (Every-one _ memory_one (record { valid = memory_one-IsMemory; within = omega arith }))

grow_memory_unlimited_example :
    Every
      (IsBounded default_memory_ceiling_bytes)
      (grow_memory plenty 0 2 unlimited_store).1.memories
grow_memory_unlimited_example =
    grow_memory_unlimited plenty unlimited_store 0 2 memory_one refl refl
      (Every-one _ memory_one (record { valid = memory_one-IsMemory; within = omega arith }))

grow_memory-MemoryOutcome_example :
    MemoryOutcome limited_store 0 2 (grow_memory plenty 0 2 limited_store)
grow_memory-MemoryOutcome_example =
    grow_memory-MemoryOutcome plenty limited_store 0 2 memory_one refl memory_one-IsMemory

grow_table-TableOutcome_example :
    TableOutcome limited_store 0 2 9 (grow_table plenty 0 2 9 limited_store)
grow_table-TableOutcome_example =
    grow_table-TableOutcome plenty limited_store 0 2 9 table_three refl

grow_memory_entity-GrowResult_example :
    GrowResult plenty memory_one 2 (grow_memory_entity plenty memory_one 2)
grow_memory_entity-GrowResult_example =
    grow_memory_entity-GrowResult plenty memory_one 2 memory_one-IsMemory

grow_memory_entity_refuses_example : grow_memory_entity plenty memory_one 4 ≡ (memory_one, none)
unfolding size_pages
grow_memory_entity_refuses_example = grow_memory_entity_refuses plenty memory_one 4 (omega arith)

grow_table_entity-TableGrowResult_example :
    TableGrowResult table_three 2 9 (grow_table_entity plenty table_three 2 9)
grow_table_entity-TableGrowResult_example = grow_table_entity-TableGrowResult plenty table_three 2 9

fill_in_bounds_example :
    Filled table_three 1 9 2 (fill table_three 1 9 2).0 × ((fill table_three 1 9 2).1 ≡ true)
unfolding size
fill_in_bounds_example = fill_in_bounds table_three 1 9 2 (omega arith) (omega arith)

fill_out_of_bounds_example : fill table_three 2 9 2 ≡ (table_three, false)
unfolding size
fill_out_of_bounds_example = fill_out_of_bounds table_three 2 9 2 (omega arith)

-- Two live entries around a freed slot.
abbrev arena : ReclaimArena ℕ
arena = record {
  slots = some 10 ∷ none ∷ some 30 ∷ [];
  generations = 0 ∷ 1 ∷ 0 ∷ [];
  free = 1 ∷ [];
}

arena-IsArena : IsArena arena
arena-IsArena = record {
  parallel = refl;
  addressable = omega arith;
  freed = freed_listed;
  reusable = empty_listed;
  distinct = ((λ l. l), tt);
}
  where
    freed_listed : (i : ℕ) → Listed i (1 ∷ []) → get_elem? arena.slots i ≡ some none
    freed_listed i (inl e) = subst (λ k. get_elem? arena.slots k ≡ some none) (sym e) refl
    freed_listed i (inr l) = elim l [ ]

    empty_listed : (i : ℕ) → get_elem? arena.slots i ≡ some none → Listed i (1 ∷ [])
    empty_listed zero h = ground arith
    empty_listed (suc zero) h = inl refl
    empty_listed (suc (suc zero)) h = ground arith
    empty_listed (suc (suc (suc i))) h = ground arith

alloc-Allocated_example :
    (index : ℕ) × ((a' : ReclaimArena ℕ) × ((alloc 20 arena ≡ (ok index, a'))
        × Allocated 20 arena a' index))
alloc-Allocated_example = alloc-Allocated 20 arena arena-IsArena (omega arith)

abbrev only_first : ℕ → Bool
only_first i = i == 0

sweep_lem_example :
    (b : ℕ) × ((a' : ReclaimArena ℕ) × ((sweep only_first (λ e. e) arena ≡ (ok b, a'))
        × Rounds only_first (λ e. e) 0 3 arena a'))
sweep_lem_example = sweep_lem only_first (λ e. e) arena arena-IsArena
