-- ===== src/View.antt =====
-- The view of one table tab (crates/dat0-core/src/view).
pub mod Model
pub mod Columns
pub mod SortHeader
pub mod Runner
pub mod FilterPopover
