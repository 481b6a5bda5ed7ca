-- ===== src/Policy/Types.antt =====
-- The types of policy.go that policies and the runner share, and errors made from Go's errors.
use agentwrap.Prelude.{
  ℕ, zero, suc, ℤ, pos, negsuc, Time, Duration, String, Option, none, some, List, [], ◌∷◌,
  get_elem?, get_last?,
}
use agentwrap.Errors.{
  SdkError, ErrorCategory, PlainError, deadline_exceeded, GoError, plain, sdk, wrapping, StringMap,
  new_error, with_debug_detail, plain_text,
}
use agentwrap.Dynamic.{AnyMap, no_fields}
use agentwrap.Contract.{
  Handle, RunRequest, RunResult, RuntimeContext, SessionAction, ValidationResult, RateLimitInfo,
  AttemptSummary, PolicyDecisionKind,
}

pub record FallbackAlternative : Type 0 where
  pub name : String
  pub runtime : Option Handle
  pub request : RunRequest
  pub context : RuntimeContext
  pub metadata : AnyMap

pub record PolicyContext : Type 0 where
  pub original_request : RunRequest
  pub current_request : RunRequest
  pub attempt : ℕ
  pub attempt_on_target : ℕ
  pub target_index : ℤ
  pub target : FallbackAlternative
  pub alternatives : List FallbackAlternative
  pub prior_attempts : List AttemptSummary
  pub current_result : RunResult
  pub err : Option SdkError
  pub rate_limit : Option RateLimitInfo
  pub validation : Option ValidationResult
  pub started_at : Time
  pub elapsed : Duration
  pub metadata : StringMap

pub record PolicyDecision : Type 0 where
  pub kind : PolicyDecisionKind
  pub reason : String
  pub detail : String
  pub delay : Duration
  pub target_index : ℤ
  pub target : Option FallbackAlternative
  pub request : Option RunRequest
  pub session_action : SessionAction
  pub rate_limit : Option RateLimitInfo
  pub metadata : AnyMap
  pub err : Option SdkError

-- PolicyDecision{}
abbrev pub zero_decision : PolicyDecision
zero_decision = record {
  kind = PolicyDecisionKind.unset;
  reason = "";
  detail = "";
  delay = pos 0;
  target_index = pos 0;
  target = none;
  request = none;
  session_action = SessionAction.default;
  rate_limit = none;
  metadata = no_fields;
  err = none;
}

-- xs[i], where `none` is an index out of range.
abbrev pub at_int {ℓ} : {A : Type ℓ} → List A → ℤ → Option A
at_int xs (pos n) = get_elem? xs n
at_int xs (negsuc n) = none

abbrev pub context_category : PlainError → ErrorCategory
context_category deadline_exceeded = ErrorCategory.timeout
context_category _ = ErrorCategory.cancellation

-- contextPolicyError of an error that is not nil; of nil it is nil.
unfoldable pub context_policy_error : PlainError → SdkError
context_policy_error err =
    new_error (context_category err) "policy runner" "policy run stopped" (some err) []

-- ensureSDKError of an error that is not nil; of nil it is nil.
unfoldable pub ensure_sdk_error : GoError → String → SdkError
ensure_sdk_error (plain err) operation =
    new_error ErrorCategory.unknown operation "runtime attempt failed" (some err)
      (with_debug_detail (plain_text err) ∷ [])
ensure_sdk_error (sdk e) operation = e
ensure_sdk_error (wrapping s e) operation = e

-- safeErrDetail
abbrev pub safe_err_detail : Option SdkError → String
safe_err_detail none = ""
safe_err_detail (some e) = e.user_detail

-- firstTime
abbrev pub first_time : Time → Time → Time
first_time zero fallback = fallback
first_time (suc t) fallback = suc t

-- finalTargetIndex
abbrev pub index_of_last : Option AttemptSummary → ℤ
index_of_last none = pos 0
index_of_last (some s) = s.target_index

abbrev pub final_target_index : List AttemptSummary → ℤ
final_target_index attempts = index_of_last (get_last? attempts)
