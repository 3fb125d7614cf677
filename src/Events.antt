-- ===== src/Events.antt =====
-- internal/events
pub mod Bus
mod Tests
