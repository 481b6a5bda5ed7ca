-- ===== src/Validation.antt =====
-- validation.go: output validation and repair.
pub mod Headings
pub mod Checks
pub mod Aggregate
pub mod Markdown
pub mod Expectations
pub mod Runner
