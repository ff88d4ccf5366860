-- ===== src/Store/Limits.antt =====
-- store/limits.rs: the limiter interface and the ready-made `StoreLimits`.
-- A limiter method takes `&mut self`: it returns the limiter's new state beside its answer. The
-- `async` trait has the same methods, its futures' results being what they return here.
pub mod Builder
use submilli_wasm.Base.{
  ℕ, ◌≤◌, ◌≡◌, Option, none, some, Bool, true, false, ◌&&◌, leb, if◌then◌else◌, ltb, arith,
}
use submilli_wasm.Error.{Result, ok, err, Error}
use submilli_wasm.State.{M}
use submilli_wasm.Word.{isize_max, u32_max, u64_max}

abbrev pub default_limit : ℕ
default_limit = 10_000

unfoldable pub host_ceiling : ℕ → ℕ
host_ceiling limit = if ltb isize_max limit then isize_max else limit

abbrev pub default_memory_ceiling_bytes : ℕ
unfolding host_ceiling
default_memory_ceiling_bytes = host_ceiling 0x1_0000_0000

abbrev pub default_table_ceiling_elems : ℕ
unfolding host_ceiling
default_table_ceiling_elems = host_ceiling u32_max

-- The trait `ResourceLimiter` over the state `T`.
pub record ResourceLimiter (T : Type 0) : Type 0 where
  pub memory_growing : ℕ → ℕ → Option ℕ → T → Result Bool × T
  pub table_growing : ℕ → ℕ → Option ℕ → T → Result Bool × T
  pub memory_grow_failed : Error → T → Result (Unit {0}) × T
  pub table_grow_failed : Error → T → Result (Unit {0}) × T
  pub instances : T → ℕ
  pub tables : T → ℕ
  pub memories : T → ℕ

-- `ResourceLimiterInner` of store/mod.rs.
pub data LimiterInner (T : Type 0) : Type 0 where
  sync : ResourceLimiter T → LimiterInner T
  async : ResourceLimiter T → LimiterInner T

pub record StoreLimits : Type 0 where
  pub memory_size : Option ℕ
  pub table_elements : Option ℕ
  pub instances : ℕ
  pub tables : ℕ
  pub memories : ℕ
  pub trap_on_grow_failure : Bool

abbrev pub default : StoreLimits
default = record {
  memory_size = none;
  table_elements = none;
  instances = default_limit;
  tables = default_limit;
  memories = default_limit;
  trap_on_grow_failure = false;
}

-- `limit.is_none_or(|limit| desired <= limit)`.
abbrev pub within : Option ℕ → ℕ → Bool
within none desired = true
within (some limit) desired = leb desired limit

unfoldable pub limits_memory_growing : ℕ → ℕ → Option ℕ → StoreLimits → Result Bool × StoreLimits
limits_memory_growing current desired maximum l =
    (ok (within l.memory_size desired && within maximum desired), l)

unfoldable pub limits_table_growing : ℕ → ℕ → Option ℕ → StoreLimits → Result Bool × StoreLimits
limits_table_growing current desired maximum l =
    (ok (within l.table_elements desired && within maximum desired), l)

unfoldable pub limits_grow_failed : Error → StoreLimits → Result (Unit {0}) × StoreLimits
limits_grow_failed error l = (if l.trap_on_grow_failure then err error else ok tt, l)

-- `impl ResourceLimiter for StoreLimits`.
abbrev pub store_limits : ResourceLimiter StoreLimits
store_limits = record {
  memory_growing = limits_memory_growing;
  table_growing = limits_table_growing;
  memory_grow_failed = limits_grow_failed;
  table_grow_failed = limits_grow_failed;
  instances = λ l. l.instances;
  tables = λ l. l.tables;
  memories = λ l. l.memories;
}
