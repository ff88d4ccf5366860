-- ===== src/Store/Reclaim.antt =====
-- store/reclaim.rs: the reclaimable arena, with its free list and its generations.
-- `free` lists the vector from its last element, which is the next to be reused.
pub mod Allocation
pub mod Sweep
pub mod Bytes
use submilli_wasm.Base.{
  ℕ, zero, suc, ◌+◌, ◌%◌, ◌^◌, ◌≡◌, Option, none, some, Bool, true, false, List, [], ◌∷◌, ◌++◌,
  length, get_elem?, set, ltb, ◌==◌, if◌then◌else◌,
}
use submilli_wasm.Error.{Result, ok, err, panicked}
use submilli_wasm.State.{M, ◌>>=◌, then_run, pure}
use submilli_wasm.Word.{u32_max}

pub record ReclaimArena (E : Type 0) : Type 0 where
  pub slots : List (Option E)
  pub generations : List ℕ
  pub free : List ℕ

-- The bump of a freed slot's generation, which skips `u32::MAX`.
unfoldable pub next_generation : ℕ → ℕ
next_generation g = if (g + 1) % 2 ^ 32 == u32_max then 0 else (g + 1) % 2 ^ 32

module _ {E : Type 0} where
  abbrev pub empty : ReclaimArena E
  empty = record { slots = []; generations = []; free = [] }

  unfoldable pub alloc : E → M (ReclaimArena E) ℕ
  alloc entity a = elim a.free [
    | index ∷ rest ↦
        if ltb index (length a.slots)
        then (ok index, record a { slots = set a.slots index (some entity); free = rest })
        else (err panicked, record a { free = rest })
    | [] ↦ (
      ok (length a.slots % 2 ^ 32),
      record a { slots = a.slots ++ some entity ∷ []; generations = a.generations ++ 0 ∷ [] },
    )
  ]

  unfoldable pub entry : ReclaimArena E → ℕ → Option E
  entry a index = elim (get_elem? a.slots index) [ none ↦ none | some slot ↦ slot ]

  unfoldable pub generation : ReclaimArena E → ℕ → Option ℕ
  generation a index = get_elem? a.generations index

  -- One round of `sweep`: a live entry that is not marked is freed, which gives its bytes.
  unfoldable pub sweep_slot : (ℕ → Bool) → (E → ℕ) → ℕ → M (ReclaimArena E) ℕ
  sweep_slot live byte_of i a = elim (entry a i) [
    | none ↦ (ok 0, a)
    | some e ↦ if live (i % 2 ^ 32) then (ok 0, a) else elim (get_elem? a.generations i) [
      | none ↦ (err panicked, a)
      | some g ↦ (
        ok (byte_of e),
        record {
          slots = set a.slots i none;
          generations = set a.generations i (next_generation g);
          free = i % 2 ^ 32 ∷ a.free;
        },
      )
    ]
  ]

  -- `n` rounds from slot `i` on, with the bytes freed so far; `+=` on `usize` wraps in a release build.
  unfoldable pub sweep_from : (ℕ → Bool) → (E → ℕ) → ℕ → ℕ → ℕ → M (ReclaimArena E) ℕ
  sweep_from live byte_of zero i freed = pure freed
  sweep_from live byte_of (suc n) i freed = do
    here ← sweep_slot live byte_of i
    sweep_from live byte_of n (i + 1) ((freed + here) % 2 ^ 64)

  unfoldable pub sweep : (ℕ → Bool) → (E → ℕ) → M (ReclaimArena E) ℕ
  sweep live byte_of a = sweep_from live byte_of (length a.slots) 0 0 a
