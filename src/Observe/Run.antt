-- ===== src/Observe/Run.antt =====
-- observedRun (observability.go): what it writes into its record, its state, and its forwarding.
pub mod Record
pub mod Artifacts
pub mod Merge
pub mod State
pub mod Forward
