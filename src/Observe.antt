-- ===== src/Observe.antt =====
-- observability.go: what the observing wrapper records of runs, and the store in memory.
pub mod Records
pub mod Store
pub mod Run
