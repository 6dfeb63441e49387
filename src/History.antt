-- ===== src/History.antt =====
-- internal/history/events.go: the event types, the payloads, and their JSON form.
pub mod Json
pub mod Payloads
pub mod Codec
pub mod Events
