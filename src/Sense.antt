-- ===== src/Sense.antt =====
-- internal/sense: what the engine perceives.
pub mod Snapshot
