-- ===== src/Store/Grow/Bounds.antt =====
-- store/grow.rs: the bound that a limiter, or its absence, puts on every memory of a store.
use submilli_wasm.Base.{
  ℕ, ◌≤◌, ◌≡◌, subst, Option, none, some, Bool, true, get_elem?, length, arith, Every, Every-set,
}
use submilli_wasm.Error.{Result, ok}
use submilli_wasm.State.{then_run}
use submilli_wasm.Word.{saturating_add, saturating_mul}
use submilli_wasm.Store.Entity.{MemoryEntity, size_pages}
use submilli_wasm.Store.Entity.Pages.{IsMemory, Grew, Grew-IsMemory}
use submilli_wasm.Store.Limits.{
  sync, StoreLimits, store_limits, limits_memory_growing, default_memory_ceiling_bytes,
}
use submilli_wasm.Store.Grow.{
  Store, with_sync_limiter, consult_or, bytes, host_count, memory_growth_allowed, grow_memory,
}
use submilli_wasm.Store.Grow.Outcome.{
  MemoryOutcome, failed, unchanged, grew, grow_memory-MemoryOutcome,
}

-- A memory in order, of at most `bound` bytes.
pub record IsBounded (bound : ℕ) (m : MemoryEntity) : Type 0 where
  pub valid : IsMemory m
  pub within : length m.bytes ≤ bound

-- What a limiter must ensure for growth to keep every memory within `bound` bytes.
abbrev pub Caps : {R T : Type 0} → ℕ → Store R T → Type 0
Caps {R} bound s =
    (m : MemoryEntity) (delta : ℕ)
    → (memory_growth_allowed {R = R} m delta s).0 ≡ ok true
    → bytes (saturating_add (size_pages m) delta) ≤ bound

-- The number of bytes that the limiter is asked for is the number that the memory then has.
Grew-bytes :
    {m m' : MemoryEntity} {delta : ℕ}
    → Grew m delta m'
    → bytes (saturating_add (size_pages m) delta) ≡ length m'.bytes
unfolding bytes host_count saturating_add saturating_mul
Grew-bytes g = omega arith

module _ {R T : Type 0} (try_reserve_exact : ℕ → ℕ → Bool) where
  Outcome-IsBounded :
      (bound : ℕ) (s : Store R T) (handle delta : ℕ)
      → Caps bound s
      → Every (IsBounded bound) s.memories
      → (r : Result (Option ℕ) × Store R T) → MemoryOutcome s handle delta r
      → Every (IsBounded bound) r.1.memories
  Outcome-IsBounded bound s handle delta caps all _ (failed e s' same) = rw same.memories all
  Outcome-IsBounded bound s handle delta caps all _ (unchanged s' same) = rw same.memories all
  Outcome-IsBounded bound s handle delta caps all _ (grew m m' s' held agreed g e _ _) = rw e (
      Every-set (IsBounded bound) s.memories handle m' all (record {
        valid = Grew-IsMemory g;
        within = subst (λ n. n ≤ bound) (Grew-bytes g) (caps m delta agreed);
      }))

  -- Growth by any number of pages keeps every memory of the store valid and within the bound.
  pub grow_memory-IsBounded :
      (bound : ℕ) (s : Store R T) (handle delta : ℕ) (m : MemoryEntity)
      → Caps bound s
      → get_elem? s.memories handle ≡ some m
      → Every (IsBounded bound) s.memories
      → Every (IsBounded bound) (grow_memory try_reserve_exact handle delta s).1.memories
  grow_memory-IsBounded bound s handle delta m caps held all =
      Outcome-IsBounded bound s handle delta caps all _ (
        grow_memory-MemoryOutcome try_reserve_exact s handle delta m held (all handle m held).valid)

-- Without a limiter the default ceiling of 4 GiB is the bound.
pub unlimited-Caps :
    {R T : Type 0} (s : Store R T) → s.limiter ≡ none → Caps default_memory_ceiling_bytes s
unfolding memory_growth_allowed consult_or with_sync_limiter then_run
unlimited-Caps s e m delta h = ground arith

-- With `StoreLimits` installed its `memory_size` is.
pub limits-Caps :
    {R : Type 0} (bound : ℕ) (s : Store R StoreLimits)
    → s.limiter ≡ some (sync store_limits)
    → s.host.memory_size ≡ some bound
    → Caps bound s
unfolding memory_growth_allowed consult_or with_sync_limiter then_run limits_memory_growing
limits-Caps bound s e l m delta h = ground arith

-- With `StoreLimits` and a `memory_size` of `bound` bytes installed, a growth of any of the
-- store's memories by any number of pages leaves every memory valid and within `bound` bytes,
-- whether the growth succeeds, is refused or traps.
pub grow_memory_limited :
    {R : Type 0} (try_reserve_exact : ℕ → ℕ → Bool) (bound : ℕ) (s : Store R StoreLimits)
    (handle delta : ℕ) (m : MemoryEntity)
    → s.limiter ≡ some (sync store_limits)
    → s.host.memory_size ≡ some bound
    → get_elem? s.memories handle ≡ some m
    → Every (IsBounded bound) s.memories
    → Every (IsBounded bound) (grow_memory try_reserve_exact handle delta s).1.memories
grow_memory_limited try_reserve_exact bound s handle delta m installed size held all =
    grow_memory-IsBounded try_reserve_exact bound s handle delta m
      (limits-Caps bound s installed size) held all

-- With no limiter installed, a growth of any of the store's memories by any number of pages leaves
-- every memory valid and within the default ceiling of 4 GiB, memory64 included.
pub grow_memory_unlimited :
    {R T : Type 0} (try_reserve_exact : ℕ → ℕ → Bool) (s : Store R T) (handle delta : ℕ)
    (m : MemoryEntity)
    → s.limiter ≡ none
    → get_elem? s.memories handle ≡ some m
    → Every (IsBounded default_memory_ceiling_bytes) s.memories
    → Every
        (IsBounded default_memory_ceiling_bytes)
        (grow_memory try_reserve_exact handle delta s).1.memories
grow_memory_unlimited try_reserve_exact s handle delta m absent held all =
    grow_memory-IsBounded try_reserve_exact default_memory_ceiling_bytes s handle delta m
      (unlimited-Caps s absent) held all
