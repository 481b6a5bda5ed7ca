-- ===== src/Validation/Aggregate.antt =====
-- aggregateValidation of validation.go: one result of the checks of a validation pass.
pub mod Exact
use agentwrap.Prelude.{
  suc, Bool, true, false, none, some, List, [], ◌∷◌, ◌++◌, decimal, if◌then◌else◌,
}
use agentwrap.Errors.{ErrorCategory, SdkError, new_error}
use agentwrap.Dynamic.{no_fields}
use agentwrap.Redact.{Patterns, with_metadata}
use agentwrap.Contract.{ExpectationSeverity, ValidationCheck, ValidationFailure, ValidationResult}
use agentwrap.Validation.Checks.{severity, severity_required, normalize_check}

unfoldable pub failure_of : ValidationCheck → ValidationFailure
failure_of check = record {
  expectation_id = check.expectation_id;
  kind = check.kind;
  severity = check.severity;
  expected = check.expected;
  observed = check.observed;
  detail = check.detail;
  repair_hint = check.repair_hint;
}

-- One round of the loop, with the check as normalizeCheck leaves it.
unfoldable pub tally_one : ValidationCheck → ValidationResult → ValidationResult
unfolding severity_required failure_of
tally_one check result =
    if check.skipped
    then record result { skipped_count = suc result.skipped_count }
    else if check.passed
    then record result { passed_count = suc result.passed_count }
    else if severity_required check.severity
    then record result {
      passed = false;
      failed_count = suc result.failed_count;
      failures = result.failures ++ failure_of check ∷ [];
    }
    else record result { skipped_count = suc result.skipped_count }

unfoldable pub tally : List ValidationCheck → ValidationResult → ValidationResult
unfolding tally_one normalize_check
tally [] result = result
tally (check ∷ checks) result = tally checks (tally_one (normalize_check check) result)

abbrev pub fresh_result : List ValidationCheck → ValidationResult
fresh_result checks = record {
  passed = true;
  skipped = false;
  passed_count = 0;
  failed_count = 0;
  skipped_count = 0;
  checks = checks;
  failures = [];
  errors = [];
  native = no_fields;
}

unfoldable pub with_skip : List ValidationCheck → ValidationResult → ValidationResult
with_skip [] result = record result { skipped = true; skipped_count = 1 }
with_skip (check ∷ checks) result = result

module _ (re : Patterns) where
  unfoldable pub validation_error : ValidationResult → SdkError
  unfolding new_error decimal
  validation_error result =
      new_error ErrorCategory.validation "validation" "required output validation failed" none
        (with_metadata re (some (("failed_count", decimal result.failed_count) ∷ [])) ∷ [])

  unfoldable pub with_error : ValidationResult → ValidationResult
  unfolding validation_error
  with_error result =
      if result.passed then result else record result { errors = validation_error result ∷ [] }

  unfoldable pub aggregate_validation : List ValidationCheck → ValidationResult
  unfolding tally with_error with_skip
  aggregate_validation checks = with_error (with_skip checks (tally checks (fresh_result checks)))
