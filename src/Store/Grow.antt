-- ===== src/Store/Grow.antt =====
-- store/grow.rs: growing a memory or a table of a store through its limiter.
-- `Store` keeps what growth reads and writes: the two arenas, the limiter and the host state that
-- the limiter's closure reaches. A handle is an index into its arena.
pub mod Outcome
pub mod Bounds
use submilli_wasm.Base.{
  ℕ, ◌*◌, ◌≤◌, min, ◌≡◌, Option, none, some, Bool, true, false, List, get_elem?, set, leb,
  if◌then◌else◌,
}
use submilli_wasm.Error.{Result, ok, err, Error, msg, panicked, ok_or}
use submilli_wasm.State.{M, ◌>>=◌, ◌>>◌, then_run, pure, fail, lift, gets, reads, modify}
use submilli_wasm.Word.{usize_max, saturating_add, saturating_mul}
use submilli_wasm.Store.Entity.{
  MemoryEntity, TableEntity, page_size, size_pages, grow_memory_entity, size, grow_table_entity,
}
use submilli_wasm.Store.Limits.{
  ResourceLimiter, LimiterInner, sync, async, default_memory_ceiling_bytes,
  default_table_ceiling_elems,
}

pub record Store (R T : Type 0) : Type 0 where
  pub memories : List MemoryEntity
  pub tables : List (TableEntity R)
  pub limiter : Option (LimiterInner T)
  pub host : T

unfoldable pub host_count : ℕ → ℕ
host_count count = min count usize_max

unfoldable pub bytes : ℕ → ℕ
bytes pages = saturating_mul (host_count pages) page_size

abbrev pub map_max : (ℕ → ℕ) → Option ℕ → Option ℕ
map_max f none = none
map_max f (some n) = some (f n)

-- `.transpose()?.unwrap_or(default)`.
abbrev pub decision {ℓ} : {S : Type ℓ} → Bool → Option (Result Bool) → S → Result Bool × S
decision default none = pure default
decision default (some r) = lift r

module _ {R T : Type 0} where
  abbrev pub consult {ℓ} : {A : Type ℓ} → Store R T → (T → A × T) → Result (Option A) × Store R T
  consult s f = let (a, host) = f s.host in (ok (some a), record s { host = host })

  unfoldable pub with_sync_limiter {ℓ} :
      {A : Type ℓ} → (ResourceLimiter T → T → A × T) → Store R T → Result (Option A) × Store R T
  with_sync_limiter f s = elim s.limiter [
    | none ↦ (ok none, s)
    | some (sync l) ↦ consult s (f l)
    | some (async l) ↦
        (err (msg "an async resource limiter requires an async context (use the `*_async` API)"), s)
  ]

  -- `self.with_sync_limiter(f)?.transpose()?.unwrap_or(default)`.
  unfoldable pub consult_or : Bool → (ResourceLimiter T → T → Result Bool × T) → M (Store R T) Bool
  consult_or default f = do answer ← with_sync_limiter f; decision default answer

  -- What both kinds of limiter answer at once.
  abbrev pub notify : (ResourceLimiter T → T → Result (Unit {0}) × T) → M (Store R T) (Unit {0})
  notify f s = elim s.limiter [
    | none ↦ (ok tt, s)
    | some (sync l) ↦ let (r, host) = f l s.host in (r, record s { host = host })
    | some (async l) ↦ let (r, host) = f l s.host in (r, record s { host = host })
  ]

  abbrev pub count_of : (ResourceLimiter T → T → ℕ) → Store R T → Option ℕ
  count_of f s = elim s.limiter [
    | none ↦ none
    | some (sync l) ↦ some (f l s.host)
    | some (async l) ↦ some (f l s.host)
  ]

  unfoldable pub limiter_memories : Store R T → Option ℕ
  limiter_memories = count_of λ l. l.memories

  unfoldable pub limiter_tables : Store R T → Option ℕ
  limiter_tables = count_of λ l. l.tables

  unfoldable pub limiter_instances : Store R T → Option ℕ
  limiter_instances = count_of λ l. l.instances

  unfoldable pub memory_grow_failed : M (Store R T) (Unit {0})
  memory_grow_failed = notify λ l. l.memory_grow_failed (msg "failed to grow memory")

  unfoldable pub table_grow_failed : M (Store R T) (Unit {0})
  table_grow_failed = notify λ l. l.table_grow_failed (msg "failed to grow table")

  abbrev pub memory_at : ℕ → Store R T → Result MemoryEntity
  memory_at handle s = ok_or (get_elem? s.memories handle) panicked

  abbrev pub table_at : ℕ → Store R T → Result (TableEntity R)
  table_at handle s = ok_or (get_elem? s.tables handle) panicked

  abbrev pub put_memory : ℕ → MemoryEntity → Store R T → Store R T
  put_memory handle m s = record s { memories = set s.memories handle m }

  abbrev pub put_table : ℕ → TableEntity R → Store R T → Store R T
  put_table handle t s = record s { tables = set s.tables handle t }

  unfoldable pub limiter_allows_memory : ℕ → Option ℕ → M (Store R T) Bool
  limiter_allows_memory initial max =
      consult_or (leb (bytes initial) default_memory_ceiling_bytes)
        λ l. l.memory_growing 0 (bytes initial) (map_max bytes max)

  unfoldable pub limiter_allows_table : ℕ → Option ℕ → M (Store R T) Bool
  limiter_allows_table initial max =
      consult_or (leb (host_count initial) default_table_ceiling_elems)
        λ l. l.table_growing 0 (host_count initial) (map_max host_count max)

  -- The limiter's decision on a growth of memory `e` by `delta` pages.
  unfoldable pub memory_growth_allowed : MemoryEntity → ℕ → M (Store R T) Bool
  memory_growth_allowed e delta =
      let desired = bytes (saturating_add (size_pages e) delta) in
      consult_or (leb desired default_memory_ceiling_bytes)
        λ l. l.memory_growing (bytes (size_pages e)) desired (map_max bytes e.ty.maximum)

  unfoldable pub table_growth_allowed : TableEntity R → ℕ → M (Store R T) Bool
  table_growth_allowed e delta =
      let desired = saturating_add (size e) (host_count delta) in
      consult_or (leb desired default_table_ceiling_elems)
        λ l. l.table_growing (size e) desired (map_max host_count e.ty.maximum)

  abbrev pub or_memory_failure : Option ℕ → M (Store R T) (Option ℕ)
  or_memory_failure (some old) = pure (some old)
  or_memory_failure none = do memory_grow_failed; pure none

  abbrev pub or_table_failure : Option ℕ → M (Store R T) (Option ℕ)
  or_table_failure (some old) = pure (some old)
  or_table_failure none = do table_grow_failed; pure none

module _ {R T : Type 0} (try_reserve_exact : ℕ → ℕ → Bool) where
  -- The growth itself, if it is allowed; `none` if the memory did not grow.
  unfoldable pub try_grow_memory : ℕ → ℕ → MemoryEntity → Bool → M (Store R T) (Option ℕ)
  try_grow_memory handle delta e false s = (ok none, s)
  try_grow_memory handle delta e true s =
      let (e', old) = grow_memory_entity try_reserve_exact e delta in
      (ok old, put_memory handle e' s)

  unfoldable pub settle_memory_growth : ℕ → ℕ → MemoryEntity → Bool → M (Store R T) (Option ℕ)
  settle_memory_growth handle delta e allowed = do
    grown ← try_grow_memory handle delta e allowed
    or_memory_failure grown

  unfoldable pub grow_memory : ℕ → ℕ → M (Store R T) (Option ℕ)
  grow_memory handle delta = do
    e ← reads (memory_at handle)
    allowed ← memory_growth_allowed e delta
    settle_memory_growth handle delta e allowed

  unfoldable pub try_grow_table : ℕ → ℕ → R → TableEntity R → Bool → M (Store R T) (Option ℕ)
  try_grow_table handle delta init e false s = (ok none, s)
  try_grow_table handle delta init e true s =
      let (e', old) = grow_table_entity try_reserve_exact e delta init in
      (ok old, put_table handle e' s)

  unfoldable pub settle_table_growth : ℕ → ℕ → R → TableEntity R → Bool → M (Store R T) (Option ℕ)
  settle_table_growth handle delta init e allowed = do
    grown ← try_grow_table handle delta init e allowed
    or_table_failure grown

  unfoldable pub grow_table : ℕ → ℕ → R → M (Store R T) (Option ℕ)
  grow_table handle delta init = do
    e ← reads (table_at handle)
    allowed ← table_growth_allowed e delta
    settle_table_growth handle delta init e allowed
