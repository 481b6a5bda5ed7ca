-- ===== src/Policy.antt =====
-- policy.go: the resilience policy and the runner that executes a run through it.
pub mod Types
pub mod Backoff
pub mod Basic
pub mod Requests
pub mod Summary
pub mod Runner
