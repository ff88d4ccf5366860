-- ===== src/Canon.antt =====
-- canon/: the packed layout of aggregates.
pub mod Layout
pub mod Tests
