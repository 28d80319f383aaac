-- ===== src/Events.antt =====
-- internal/events: the routing of events.
pub mod Router
