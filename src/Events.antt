-- ===== src/Events.antt =====
-- events.go and lifecycle_events.go: the event envelope and its payload.
pub mod Envelope
pub mod Lifecycle
