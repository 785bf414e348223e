-- ===== src/Catalog.antt =====
-- The catalog panel (crates/dat0-core/src/catalog).
pub mod Tree
pub mod Nav
