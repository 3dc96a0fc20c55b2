-- ===== src/Handlers.antt =====
-- src/handlers.rs: what the gateway does with a request.
pub mod OneShot
pub mod Streaming
pub mod Chat
pub mod Ops
