-- ===== src/Workspace.antt =====
-- A workspace that several machines can reach (crates/dat0-core/src/workspace).
pub mod LockManifest
