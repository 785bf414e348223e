-- ===== src/Inspector.antt =====
-- The inspector (crates/dat0-core/src/inspector).
pub mod Lineage
