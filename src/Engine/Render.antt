-- ===== src/Engine/Render.antt =====
-- SQL for the transformations of a view (crates/dat0-engine/src/render.rs, and `quote_ident` of
-- crates/dat0-engine/src/catalog.rs).
pub mod Literal
pub mod Quoting
pub mod Filter
pub mod Overlay
pub mod Compile
pub mod Success
pub mod Order
mod Examples
