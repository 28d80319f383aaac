-- ===== src/Stream.antt =====
-- internal/stream: the wire of the engine.
pub mod Frame
pub mod Session
