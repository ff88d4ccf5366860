-- ===== src/Store.antt =====
-- store/: the entities that a store owns, their growth under a limiter, and the reclaimable arenas.
pub mod Entity
pub mod Limits
pub mod Managed
pub mod Grow
pub mod Reclaim
pub mod Gc
pub mod Collect
pub mod Budget
pub mod Tests
