-- ===== src/Engine.antt =====
-- The query engine crate (crates/dat0-engine): the transformations of a table view, and the SQL
-- that they compile to.
pub mod Tables
pub mod Transform
pub mod Render
