-- ===== src/Format.antt =====
-- The package format (crates/dat0-format).
pub mod Model
pub mod Diff
pub mod Replay
