-- ===== src/Health/Required.antt =====
-- RequiredHealthFailure of health.go.
pub mod Rounds
pub mod Exact
use agentwrap.Prelude.{
  String, ◌≡◌, refl, sym, ◌∙◌, ◌↔◌, ◌⊎◌, inl, inr, Bool, true, false, not, ◌||◌, Option, none, some,
  List, [], ◌∷◌, arith, str_append, str_eq, eq_iff, is_nil, is_empty, Bool-cases, if◌then◌else◌,
}
use agentwrap.Errors.{ErrorCategory, PlainError, SdkError, new_error, with_debug_detail}
use agentwrap.Redact.{Patterns, with_metadata}
use agentwrap.Health.{HealthStatus, HealthResult}

-- A set of texts.
unfoldable pub member : String → List String → Bool
member x [] = false
member x (y ∷ ys) = str_eq y x || member x ys

abbrev failure : String → String → SdkError
failure detail check =
    new_error ErrorCategory.health "health preflight" detail none (with_debug_detail check ∷ [])

abbrev err_or : Option SdkError → SdkError → SdkError
err_or (some e) d = e
err_or none d = d

-- What the switch returns for a required check, from its status, its error and its name.
unfoldable pub status_failure : HealthStatus → Option SdkError → String → Option SdkError
status_failure HealthStatus.ready err check = none
status_failure HealthStatus.skipped err check = none
status_failure HealthStatus.unknown err check =
    some (err_or err (failure "required health check is unknown" check))
status_failure HealthStatus.unsupported err check =
    some (err_or err (failure "required health check is unsupported" check))
status_failure _ err check = some (err_or err (failure "required health check failed" check))

-- What the loop over the results comes to: an error, or the required checks that it saw.
pub data Scan : Type 0 where
  failed : SdkError → Scan
  finished : List String → Scan

unfoldable pub scan : List String → List String → List HealthResult → Scan
unfolding member status_failure
scan wanted seen [] = finished seen
scan wanted seen (result ∷ results) =
    let skipped = scan wanted seen results in
    let passed = scan wanted (result.check ∷ seen) results in
    if not (member result.check wanted)
    then skipped
    else elim (status_failure result.status result.err result.check) [
      | some e ↦ failed e
      | none ↦ passed
    ]

unfoldable pub first_missing : List String → List String → Option SdkError
unfolding member
first_missing seen [] = none
first_missing seen (check ∷ checks) =
    let rest = first_missing seen checks in
    if member check seen then rest else some (failure "required health check is missing" check)

abbrev pub result_checks : List HealthResult → List String
result_checks [] = []
result_checks (result ∷ results) = result.check ∷ result_checks results

-- `order` is the order in which Go ranges over the keys of a set, which it leaves open.
module _ (order : List String → List String) where
  unfoldable pub after_scan : List String → Scan → Option SdkError
  unfolding first_missing
  after_scan required (failed e) = some e
  after_scan required (finished seen) =
      if is_nil required then none else first_missing seen (order required)

  unfoldable pub required_health_failure : List HealthResult → List String → Option SdkError
  unfolding scan after_scan
  required_health_failure results required =
      after_scan required
        (scan (if is_nil required then result_checks results else required) [] results)

abbrev pub status_text : HealthStatus → String
status_text HealthStatus.ready = "ready"
status_text HealthStatus.degraded = "degraded"
status_text HealthStatus.transient_fail = "transient_failure"
status_text HealthStatus.unrecoverable = "unrecoverable_failure"
status_text HealthStatus.unknown = "unknown"
status_text HealthStatus.skipped = "skipped"
status_text HealthStatus.unsupported = "unsupported"
status_text (HealthStatus.other s) = s

abbrev health_category : ErrorCategory → ErrorCategory
health_category ErrorCategory.unset = ErrorCategory.health
health_category c = c

pub error_for_health_status :
    Patterns
    → String
    → HealthStatus
    → ErrorCategory
    → String
    → String
    → Option PlainError
    → SdkError
unfolding new_error
error_for_health_status re check status category user_detail debug_detail cause =
    let labels = some (("health_status", status_text status) ∷ ("health_check", check) ∷ []) in
    new_error (health_category category) (str_append "health " check) user_detail cause (
      with_debug_detail (if is_empty debug_detail then check else debug_detail)
      ∷ (if is_empty (status_text status) then [] else with_metadata re labels ∷ []))
