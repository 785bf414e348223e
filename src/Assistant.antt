-- ===== src/Assistant.antt =====
-- The assistant: its event stream, and the check of a base URL (crates/dat0-core/src/ai).
pub mod Sse
pub mod Ssrf
