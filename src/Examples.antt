-- ===== src/Examples.antt =====
-- Tests of the definitions, and the theorems applied at inputs that meet their hypotheses.
mod Permission
mod Event
mod PolicyCases
mod Reports
mod Layers
mod Validating
mod Storing
mod Observing
mod Rates
mod Caching
