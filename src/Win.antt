-- ===== src/Win.antt =====
-- The crates/zicade-win crate: what it decides without a call of the platform.
pub mod Discovery
