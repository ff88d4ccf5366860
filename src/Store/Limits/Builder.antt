-- ===== src/Store/Limits/Builder.antt =====
-- store/limits.rs: `StoreLimitsBuilder`, a chain of setters over `StoreLimits`.
use submilli_wasm.Base.{ℕ, some, Bool}
use submilli_wasm.Store.Limits.{StoreLimits, default}

pub record Builder : Type 0 where
  pub limits : StoreLimits

unfoldable pub new : Builder
new = record { limits = default }

unfoldable pub memory_size : Builder → ℕ → Builder
memory_size b limit = record { limits = record (b.limits) { memory_size = some limit } }

unfoldable pub table_elements : Builder → ℕ → Builder
table_elements b limit = record { limits = record (b.limits) { table_elements = some limit } }

unfoldable pub instances : Builder → ℕ → Builder
instances b limit = record { limits = record (b.limits) { instances = limit } }

unfoldable pub tables : Builder → ℕ → Builder
tables b limit = record { limits = record (b.limits) { tables = limit } }

unfoldable pub memories : Builder → ℕ → Builder
memories b limit = record { limits = record (b.limits) { memories = limit } }

unfoldable pub trap_on_grow_failure : Builder → Bool → Builder
trap_on_grow_failure b on = record { limits = record (b.limits) { trap_on_grow_failure = on } }

unfoldable pub build : Builder → StoreLimits
build b = b.limits
