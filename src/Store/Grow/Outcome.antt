-- ===== src/Store/Grow/Outcome.antt =====
-- store/grow.rs: what `grow_memory` and `grow_table` do to the store, whatever the limiter does.
use submilli_wasm.Base.{
  ℕ, ◌+◌, ◌≤◌, ◌≡◌, ◌⊎◌, inl, inr, min, Option-cases, leb→le, refl, subst, ◌∙◌, ap, Option, none,
  some, Bool, true, false, get_elem?, set, set-get, arith,
}
use submilli_wasm.Error.{Result, ok, err, Error}
use submilli_wasm.State.{pure, then_run}
use submilli_wasm.Store.Entity.{MemoryEntity, TableEntity, size_pages, size}
use submilli_wasm.Store.Entity.Pages.{IsMemory, Grew, GrowResult, grow_memory_entity-GrowResult}
use submilli_wasm.Store.Entity.Elements.{
  TableGrew, TableGrowResult, grow_table_entity-TableGrowResult,
}
use submilli_wasm.Word.{u64_max, usize_max, saturating_add}
use submilli_wasm.Store.Limits.{ResourceLimiter, sync, async, default_table_ceiling_elems}
use submilli_wasm.Store.Grow.{
  Store, host_count, map_max, with_sync_limiter, consult_or, memory_grow_failed, table_grow_failed,
  memory_growth_allowed, table_growth_allowed, grow_memory, grow_table, try_grow_memory,
  try_grow_table, or_memory_failure, or_table_failure, settle_memory_growth, settle_table_growth,
  put_memory, put_table,
}

module _ {R T : Type 0} where
  -- Only the limiter's own state may differ.
  pub record Same (s s' : Store R T) : Type 0 where
    pub memories : s'.memories ≡ s.memories
    pub tables : s'.tables ≡ s.tables
    pub limiter : s'.limiter ≡ s.limiter

  Same-trans : {s s' s'' : Store R T} → Same s s' → Same s' s'' → Same s s''
  Same-trans a b = record {
    memories = b.memories ∙ a.memories;
    tables = b.tables ∙ a.tables;
    limiter = b.limiter ∙ a.limiter;
  }

  -- The state after a step whose result is known.
  after {ℓ} :
      {A : Type ℓ} {p : Result A × Store R T} {r : Result A} {s s' : Store R T}
      → p ≡ (r, s')
      → Same s p.1
      → Same s s'
  after {s} e h = subst (λ q. Same s q.1) e h

  consult_or-Same :
      (d : Bool) (f : ResourceLimiter T → T → Result Bool × T) (s : Store R T)
      → Same s (consult_or d f s).1
  unfolding consult_or with_sync_limiter then_run
  consult_or-Same d f s = ground arith

  memory_growth_allowed-Same :
      (e : MemoryEntity) (delta : ℕ) (s : Store R T) → Same s (memory_growth_allowed e delta s).1
  unfolding memory_growth_allowed
  memory_growth_allowed-Same e delta s = consult_or-Same _ _ s

  table_growth_allowed-Same :
      (e : TableEntity R) (delta : ℕ) (s : Store R T) → Same s (table_growth_allowed e delta s).1
  unfolding table_growth_allowed
  table_growth_allowed-Same e delta s = consult_or-Same _ _ s

  memory_grow_failed-Same : (s : Store R T) → Same s (memory_grow_failed s).1
  unfolding memory_grow_failed
  memory_grow_failed-Same s = ground arith

  table_grow_failed-Same : (s : Store R T) → Same s (table_grow_failed s).1
  unfolding table_grow_failed
  table_grow_failed-Same s = ground arith

  -- The store after a call of `grow_memory`: an error or `none` leaves every memory and table as
  -- it was; a success follows the limiter's consent and replaces the one memory by its growth.
  pub data MemoryOutcome (s : Store R T) (handle delta : ℕ)
      : Result (Option ℕ) × Store R T → Type 0 where
    failed : (e : Error) (s' : Store R T) → Same s s' → MemoryOutcome s handle delta (err e, s')
    unchanged : (s' : Store R T) → Same s s' → MemoryOutcome s handle delta (ok none, s')
    grew :
        (m m' : MemoryEntity) (s' : Store R T)
        → get_elem? s.memories handle ≡ some m
        → (memory_growth_allowed {R = R} m delta s).0 ≡ ok true
        → Grew m delta m'
        → s'.memories ≡ set s.memories handle m'
        → s'.tables ≡ s.tables
        → s'.limiter ≡ s.limiter
        → MemoryOutcome s handle delta (ok (some (size_pages m)), s')

  -- The consent to a table's growth: the limiter allows the old and the new size with the declared
  -- maximum, or there is no limiter and the new size is within the default ceiling.
  abbrev pub TableConsent : TableEntity R → ℕ → Store R T → Type 0
  TableConsent t delta s =
      ((s.limiter ≡ none) × (min (size t + delta) u64_max ≤ default_table_ceiling_elems))
      ⊎ ((l : ResourceLimiter T) × ((s.limiter ≡ some (sync l))
            × ((l.table_growing (size t) (min (size t + delta) u64_max)
                  (map_max host_count t.ty.maximum) s.host).0
                ≡ ok true)))

  table_growth_allowed-TableConsent :
      (t : TableEntity R) (delta : ℕ) (s : Store R T)
      → (table_growth_allowed t delta s).0 ≡ ok true
      → TableConsent t delta s
  unfolding table_growth_allowed consult_or with_sync_limiter then_run saturating_add host_count
  table_growth_allowed-TableConsent t delta s h =
      let desired : min (size t + min delta usize_max) u64_max ≡ min (size t + delta) u64_max =
        omega arith in
      elim (Option-cases s.limiter) [
        | inl e ↦ inl (e, leb→le _ _ (allowed (rw (← desired) (rw e at h))))
        | inr (sync l, e) ↦ inr (l, (e, rw (← desired) (rw e at h)))
        | inr (async l, e) ↦ absurd (refused (rw e at h))
      ]
    where
      allowed : {b : Bool} → Path (Result Bool) (ok b) (ok true) → b ≡ true
      allowed q = cc

      refused : {e : Error} → Path (Result Bool) (err e) (ok true) → ⊥
      refused q = cc

  pub data TableOutcome (s : Store R T) (handle delta : ℕ) (init : R)
      : Result (Option ℕ) × Store R T → Type 0 where
    failed : (e : Error) (s' : Store R T) → Same s s' → TableOutcome s handle delta init (err e, s')
    unchanged : (s' : Store R T) → Same s s' → TableOutcome s handle delta init (ok none, s')
    grew :
        (t t' : TableEntity R) (s' : Store R T)
        → get_elem? s.tables handle ≡ some t
        → TableConsent t delta s
        → TableGrew t delta init t'
        → s'.tables ≡ set s.tables handle t'
        → s'.memories ≡ s.memories
        → s'.limiter ≡ s.limiter
        → TableOutcome s handle delta init (ok (some (size t)), s')

  module _ (try_reserve_exact : ℕ → ℕ → Bool) (s : Store R T) (handle delta : ℕ) where
    settle_memory_failure :
        (p : Result (Unit {0}) × Store R T)
        → Same s p.1
        → MemoryOutcome s handle delta (then_run (λ _. pure none) p)
    unfolding then_run
    settle_memory_failure (err e, s') same = failed e s' same
    settle_memory_failure (ok _, s') same = unchanged s' same

    or_memory_failure-Outcome :
        (s' : Store R T) → Same s s' → MemoryOutcome s handle delta (or_memory_failure none s')
    or_memory_failure-Outcome s' same =
        settle_memory_failure (memory_grow_failed s') (Same-trans same (memory_grow_failed-Same s'))

    grown_memory :
        (m : MemoryEntity)
        → get_elem? s.memories handle ≡ some m
        → (s' : Store R T) → memory_growth_allowed m delta s ≡ (ok true, s')
        → Same s s'
        → (r : MemoryEntity × Option ℕ) → GrowResult try_reserve_exact m delta r
        → MemoryOutcome s handle delta (or_memory_failure r.1 (put_memory handle r.0 s'))
    unfolding then_run
    grown_memory m held s' eq same _ GrowResult.refused = or_memory_failure-Outcome _ (record {
      memories = ap (λ l. set l handle m) same.memories ∙ set-get s.memories handle m held;
      tables = same.tables;
      limiter = same.limiter;
    })
    grown_memory m held s' eq same _ (GrowResult.grown m' g) =
        grew m m' _ held (ap (λ q. q.0) eq) g (ap (λ l. set l handle m') same.memories) same.tables
          same.limiter

    settle_memory :
        (m : MemoryEntity)
        → get_elem? s.memories handle ≡ some m
        → IsMemory m
        → (p : Result Bool × Store R T) → memory_growth_allowed m delta s ≡ p
        → Same s p.1
        → MemoryOutcome s handle delta
            (then_run (settle_memory_growth try_reserve_exact handle delta m) p)
    unfolding settle_memory_growth try_grow_memory then_run
    settle_memory m held valid (err e, s') eq same = failed e s' same
    settle_memory m held valid (ok false, s') eq same = or_memory_failure-Outcome s' same
    settle_memory m held valid (ok true, s') eq same =
        grown_memory m held s' eq same _
          (grow_memory_entity-GrowResult try_reserve_exact m delta valid)

    -- For a valid memory that the store holds, `grow_memory` fails or returns none with memories,
    -- tables and limiter as they were, or returns the old page count after the limiter's consent,
    -- with that one memory replaced by itself and `delta` zeroed pages, within its limit.
    pub grow_memory-MemoryOutcome :
        (m : MemoryEntity)
        → get_elem? s.memories handle ≡ some m
        → IsMemory m
        → MemoryOutcome s handle delta (grow_memory try_reserve_exact handle delta s)
    unfolding grow_memory then_run
    grow_memory-MemoryOutcome m held valid =
        rw (held, grow_memory)
          (settle_memory m held valid (memory_growth_allowed m delta s) refl
            (memory_growth_allowed-Same m delta s))

  module _ (try_reserve_exact : ℕ → ℕ → Bool) (s : Store R T) (handle delta : ℕ) (init : R) where
    settle_table_failure :
        (p : Result (Unit {0}) × Store R T)
        → Same s p.1
        → TableOutcome s handle delta init (then_run (λ _. pure none) p)
    unfolding then_run
    settle_table_failure (err e, s') same = failed e s' same
    settle_table_failure (ok _, s') same = unchanged s' same

    or_table_failure-Outcome :
        (s' : Store R T) → Same s s' → TableOutcome s handle delta init (or_table_failure none s')
    or_table_failure-Outcome s' same =
        settle_table_failure (table_grow_failed s') (Same-trans same (table_grow_failed-Same s'))

    grown_table :
        (t : TableEntity R)
        → get_elem? s.tables handle ≡ some t
        → (s' : Store R T) → table_growth_allowed t delta s ≡ (ok true, s')
        → Same s s'
        → (r : TableEntity R × Option ℕ) → TableGrowResult t delta init r
        → TableOutcome s handle delta init (or_table_failure r.1 (put_table handle r.0 s'))
    unfolding then_run
    grown_table t held s' eq same _ TableGrowResult.refused = or_table_failure-Outcome _ (record {
      tables = ap (λ l. set l handle t) same.tables ∙ set-get s.tables handle t held;
      memories = same.memories;
      limiter = same.limiter;
    })
    grown_table t held s' eq same _ (TableGrowResult.grown t' g) =
        grew t t' _ held (table_growth_allowed-TableConsent t delta s (ap (λ q. q.0) eq)) g
          (ap (λ l. set l handle t') same.tables) same.memories same.limiter

    settle_table :
        (t : TableEntity R)
        → get_elem? s.tables handle ≡ some t
        → (p : Result Bool × Store R T) → table_growth_allowed t delta s ≡ p
        → Same s p.1
        → TableOutcome s handle delta init
            (then_run (settle_table_growth try_reserve_exact handle delta init t) p)
    unfolding settle_table_growth try_grow_table then_run
    settle_table t held (err e, s') eq same = failed e s' same
    settle_table t held (ok false, s') eq same = or_table_failure-Outcome s' same
    settle_table t held (ok true, s') eq same =
        grown_table t held s' eq same _
          (grow_table_entity-TableGrowResult try_reserve_exact t delta init)

    -- For a table that the store holds, `grow_table` fails or returns none with memories, tables
    -- and limiter as they were, or returns the old size with that one table replaced by itself and
    -- `delta` copies of `init`, within its limit, after the limiter has allowed the old and the
    -- new size or, with none installed, if the new size is within the default ceiling.
    pub grow_table-TableOutcome :
        (t : TableEntity R)
        → get_elem? s.tables handle ≡ some t
        → TableOutcome s handle delta init (grow_table try_reserve_exact handle delta init s)
    unfolding grow_table then_run
    grow_table-TableOutcome t held =
        rw (held, grow_table)
          (settle_table t held (table_growth_allowed t delta s) refl
            (table_growth_allowed-Same t delta s))
