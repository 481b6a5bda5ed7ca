-- ===== src/Validation/Runner.antt =====
-- ValidatingRuntime and validationRun of validation.go: a run, its validation and its repairs.
pub mod State
pub mod Stream
pub mod Results
pub mod Repair
pub mod Execute
