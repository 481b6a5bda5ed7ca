-- ===== src/Policy/Summary.antt =====
-- What the runner reads off a result (policy.go): its rate limit, its validation and its summary.
use agentwrap.Prelude.{
  ℕ, ℤ, pos, Time, sub_time, String, Option, none, some, List, [], ◌∷◌, is_empty, if◌then◌else◌,
}
use agentwrap.Errors.{is_rate_limit, SdkError, ErrorCategory}
use agentwrap.Dynamic.{no_fields}
use agentwrap.Contract.{
  RunStatus, RuntimeContext, RunRequest, RunResult, ValidationResult, RateLimitInfo, RateLimitEntry,
  AttemptSummary, zero_context,
}
use agentwrap.Policy.Types.{first_time}
use agentwrap.Policy.Requests.{attempt_request}

-- The RateLimitInfo of a literal with four fields.
limit_info : RuntimeContext → String → String → RateLimitInfo
limit_info c source detail = record {
  provider = c.provider;
  model = c.model;
  scope = "";
  limit_name = "";
  retry_after = pos 0;
  reset_at = 0;
  remaining = none;
  limit = none;
  source = source;
  user_detail = detail;
  native_metadata = no_fields;
}

-- The loop over `result.Metadata.Errors`.
limit_of_errors : RuntimeContext → List SdkError → Option RateLimitInfo
unfolding limit_info
limit_of_errors c [] = none
limit_of_errors c (e ∷ es) =
    if is_rate_limit e.category
    then some (limit_info c "metadata_error" e.user_detail)
    else limit_of_errors c es

limit_of_error : RunResult → Option SdkError → Option RateLimitInfo
unfolding limit_of_errors
limit_of_error r none = limit_of_errors r.metadata.context r.metadata.errors
limit_of_error r (some e) =
    if is_rate_limit e.category
    then some (limit_info r.metadata.context "sdk_error" e.user_detail)
    else limit_of_errors r.metadata.context r.metadata.errors

limit_of_entry : RunResult → RateLimitEntry → Option RateLimitInfo
unfolding limit_of_error
limit_of_entry r (RateLimitEntry.pointer info) = some info
limit_of_entry r (RateLimitEntry.value info) = some info
limit_of_entry r _ = limit_of_error r r.err

-- rateLimitFromResult
unfoldable pub rate_limit_from_result : RunResult → Option RateLimitInfo
unfolding limit_of_entry
rate_limit_from_result r = limit_of_entry r r.metadata.native_metadata.rate_limit_info

-- validationFromResult
unfoldable pub validation_from_result : RunResult → Option ValidationResult
validation_from_result r =
    if r.metadata.validation.configured then some r.metadata.validation.final else none

-- The status of a result that has none, by its error.
abbrev pub settled_status : RunStatus → Option SdkError → RunStatus
settled_status RunStatus.unset none = RunStatus.completed
settled_status RunStatus.unset (some e) = RunStatus.failed
settled_status s e = s

abbrev pub category_of : Option SdkError → ErrorCategory
category_of none = ErrorCategory.unset
category_of (some e) = e.category

summary_context : RunRequest → RuntimeContext → RuntimeContext
summary_context req c =
    if is_empty c.runtime_kind
    then record zero_context { provider = req.provider; model = req.model }
    else c

-- summarizeAttempt. `finished` is the result's instant, or that of the clock where it has none.
unfoldable pub summarize_attempt :
    String → ℕ → ℕ → ℤ → RunRequest → Time → RunResult → Time → AttemptSummary
unfolding summary_context
summarize_attempt id attempt attempt_on_target target_index req started r finished = record {
  attempt = attempt;
  attempt_on_target = attempt_on_target;
  target_index = target_index;
  run_id = r.run_id;
  parent_run_id = id;
  context = summary_context req r.metadata.context;
  request = attempt_request req;
  status = settled_status r.status r.err;
  started_at = first_time r.started_at started;
  finished_at = finished;
  duration = sub_time finished (first_time r.started_at started);
  session = r.metadata.session;
  error_category = category_of r.err;
  error = r.err;
  rate_limit = rate_limit_from_result r;
  policy_decision_reason = "";
  native_metadata = r.metadata.native_metadata;
}
