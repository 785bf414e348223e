-- ===== src/Query.antt =====
-- The query console (crates/dat0-core/src/query).
pub mod Statement
