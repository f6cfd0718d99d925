-- ===== src/Events.antt =====
-- The events that the parts of the backend send to each other: backend/events.
pub mod Types
pub mod Envelope
pub mod Routing
mod Tests
