-- ===== src/Coalescing.antt =====
-- src/coalescing.rs: identical requests in flight share one call of the backend.
pub mod OneShot
pub mod Stream
