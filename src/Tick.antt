-- ===== src/Tick.antt =====
-- internal/tick: the contention core and the engine's loop.
pub mod Behavior
pub mod Arbitration
pub mod Engine
