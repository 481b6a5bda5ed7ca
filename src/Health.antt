-- ===== src/Health.antt =====
-- health.go: the results of health checks and the overall status of a report.
pub mod Worst
pub mod Required
use agentwrap.Prelude.{String, Bool, true, false, Option, List, [], ◌∷◌, if◌then◌else◌, Time}
use agentwrap.Errors.{SdkError}
use agentwrap.Dynamic.{AnyMap}

-- `other` is a text that is none of the constants.
pub data HealthStatus : Type 0 where
  ready degraded transient_fail unrecoverable unknown skipped unsupported : HealthStatus
  other : String → HealthStatus

-- `check` and `severity` are open texts.
pub record HealthResult : Type 0 where
  pub check : String
  pub status : HealthStatus
  pub severity : String
  pub user_detail : String
  pub debug_detail : String
  pub native_metadata : AnyMap
  pub err : Option SdkError
  pub started_at : Time
  pub finished_at : Time

-- What the case of one result makes of the status so far; `unrecoverable` returns at once.
unfoldable pub worsen : HealthStatus → HealthStatus → HealthStatus
worsen status HealthStatus.ready = status
worsen status HealthStatus.unrecoverable = HealthStatus.unrecoverable
worsen status HealthStatus.transient_fail = elim status [
  | HealthStatus.degraded ↦ HealthStatus.degraded
  | _ ↦ HealthStatus.transient_fail
]
worsen status HealthStatus.degraded = HealthStatus.degraded
worsen status HealthStatus.unknown = elim status [
  | HealthStatus.ready ↦ HealthStatus.unknown
  | HealthStatus.skipped ↦ HealthStatus.unknown
  | HealthStatus.unsupported ↦ HealthStatus.unknown
  | s ↦ s
]
worsen status HealthStatus.skipped = elim status [
  | HealthStatus.ready ↦ HealthStatus.skipped
  | s ↦ s
]
worsen status HealthStatus.unsupported = elim status [
  | HealthStatus.ready ↦ HealthStatus.unsupported
  | s ↦ s
]
worsen status (HealthStatus.other s) = status

abbrev pub is_unrecoverable : HealthStatus → Bool
is_unrecoverable HealthStatus.unrecoverable = true
is_unrecoverable _ = false

-- The loop of OverallHealthStatus, from the status so far.
unfoldable pub overall_from : HealthStatus → List HealthResult → HealthStatus
unfolding worsen
overall_from status [] = status
overall_from status (result ∷ results) =
    let rest = overall_from (worsen status result.status) results in
    if is_unrecoverable result.status then HealthStatus.unrecoverable else rest

unfoldable pub overall_health_status : List HealthResult → HealthStatus
unfolding overall_from
overall_health_status results = overall_from HealthStatus.ready results
