-- ===== src/Grid.antt =====
-- The grid of one table (crates/dat0-core/src/grid).
pub mod Clipboard
pub mod Selection
pub mod Keymap
pub mod DataSource
