-- ===== src/Examples/Reports.antt =====
-- Metadata with a secret in it, headings, checks and health results.
use agentwrap.Prelude.{
  String, ◌≡◌, refl, ◌↔◌, Bool, true, false, none, List, [], ◌∷◌, str_eq, if◌then◌else◌,
}
use agentwrap.Dynamic.{Any, text, fields, items, no_fields, field, no_items, item}
use agentwrap.Redact.{Patterns, redacted, redact_env, redact_metadata_value}
use agentwrap.Redact.Paths.{Step, text_at, shown_at, text_at-redact_metadata_value}
use agentwrap.Contract.{ExpectationKind, ExpectationSeverity, ValidationCheck}
use agentwrap.Validation.Headings.{missing_in_order, InOrder, missing_in_order_exact}
use agentwrap.Validation.Aggregate.{aggregate_validation}
use agentwrap.Validation.Aggregate.Exact.{IsAggregate, aggregate_validation-IsAggregate}
use agentwrap.Health.{HealthStatus, HealthResult, overall_health_status}
use agentwrap.Health.Required.{required_health_failure}
use agentwrap.Health.Required.Exact.{IsFit, required_health_failure_exact}
use agentwrap.Health.Worst.{IsWorst, overall_health_status-IsWorst}

-- A simple stand for the three patterns.
abbrev token_patterns : Patterns
token_patterns = record {
  secret_name = λ name. str_eq name "token";
  replace_bearer = λ s. s;
  replace_assignment = λ s. if str_eq s "token=abc" then "token=[REDACTED]" else s;
}

abbrev nested_metadata : Any
nested_metadata = fields (
    field "token" (text "abc")
      (field "notes" (items (item (text "token=abc") (item (text "fine") no_items))) no_fields))

redacted_test :
    redact_metadata_value token_patterns nested_metadata
    ≡ fields (
        field "token" (text redacted) (
          field "notes"
            (items (item (text "token=[REDACTED]") (item (text "fine") no_items)))
            no_fields))
unfolding redact_metadata_value
redacted_test = refl

redact_env_test :
    redact_env token_patterns ("token=abc=d" ∷ "home=/root" ∷ "token" ∷ [])
    ≡ "token=[REDACTED]" ∷ "home=/root" ∷ "token" ∷ []
unfolding redact_env
redact_env_test = refl

abbrev first_note : List Step
first_note = Step.key "notes" ∷ Step.index 0 ∷ []

text_at-redact_metadata_value_example :
    text_at first_note (redact_metadata_value token_patterns nested_metadata)
    ≡ shown_at token_patterns first_note nested_metadata
text_at-redact_metadata_value_example =
    text_at-redact_metadata_value token_patterns first_note nested_metadata

missing_test :
    missing_in_order ("Goal" ∷ "Risks" ∷ []) ("Risks" ∷ "Goal" ∷ "Notes" ∷ []) ≡ "Risks" ∷ []
unfolding missing_in_order
missing_test = refl

missing_in_order_exact_example :
    missing_in_order ("Goal" ∷ "Risks" ∷ []) ("Goal" ∷ "Notes" ∷ "Risks" ∷ []) ≡ []
    ↔ InOrder ("Goal" ∷ "Risks" ∷ []) ("Goal" ∷ "Notes" ∷ "Risks" ∷ [])
missing_in_order_exact_example =
    missing_in_order_exact ("Goal" ∷ "Risks" ∷ []) ("Goal" ∷ "Notes" ∷ "Risks" ∷ [])

abbrev check_of : String → ExpectationSeverity → Bool → Bool → ValidationCheck
check_of id severity passed skipped = record {
  expectation_id = id;
  kind = ExpectationKind.file;
  severity = severity;
  passed = passed;
  skipped = skipped;
  expected = "file exists";
  observed = "";
  detail = "";
  repair_hint = "";
}

abbrev some_checks : List ValidationCheck
some_checks =
    check_of "a" ExpectationSeverity.required true false
    ∷ check_of "b" ExpectationSeverity.unset false false
    ∷ check_of "c" ExpectationSeverity.optional false false
    ∷ check_of "d" ExpectationSeverity.required false true
    ∷ []

aggregate_validation-IsAggregate_example :
    IsAggregate some_checks (aggregate_validation token_patterns some_checks)
aggregate_validation-IsAggregate_example =
    aggregate_validation-IsAggregate token_patterns some_checks

abbrev health_of : String → HealthStatus → HealthResult
health_of check status = record {
  check = check;
  status = status;
  severity = "info";
  user_detail = "";
  debug_detail = "";
  native_metadata = no_fields;
  err = none;
  started_at = 1;
  finished_at = 2;
}

abbrev some_results : List HealthResult
some_results =
    health_of "workdir" HealthStatus.skipped
    ∷ health_of "provider" HealthStatus.degraded
    ∷ health_of "model" HealthStatus.transient_fail
    ∷ []

overall_test : overall_health_status some_results ≡ HealthStatus.degraded
unfolding overall_health_status
overall_test = refl

overall_health_status-IsWorst_example :
    IsWorst HealthStatus.ready some_results (overall_health_status some_results)
overall_health_status-IsWorst_example = overall_health_status-IsWorst some_results

required_test : required_health_failure (λ keys. keys) some_results ("workdir" ∷ []) ≡ none
unfolding required_health_failure
required_test = refl

required_health_failure_exact_example :
    required_health_failure (λ keys. keys) some_results ("workdir" ∷ "runtime" ∷ []) ≡ none
    ↔ IsFit some_results ("workdir" ∷ "runtime" ∷ [])
required_health_failure_exact_example =
    required_health_failure_exact (λ keys. keys) (λ x keys. refl) some_results
      ("workdir" ∷ "runtime" ∷ [])
