-- ===== src/Policy/Runner.antt =====
-- PolicyRunner of policy.go: the state of a run, its environment, and the loop over attempts. The
-- children hold the parts of the loop and the proofs.
pub mod State
pub mod Stream
pub mod Targets
pub mod Attempt
pub mod Finish
pub mod Execute
