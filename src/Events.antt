-- ===== src/Events.antt =====
-- The event bus of swx_core/events/dispatcher.py.
pub mod Model
pub mod Pattern
pub mod Bus
pub mod Dispatch
pub mod Equality
pub mod Order
pub mod Once
mod Tests
