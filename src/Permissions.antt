-- ===== src/Permissions.antt =====
-- permissions.go: the permission policy of a run, its validation and its summary.
pub mod Types
pub mod Validate
