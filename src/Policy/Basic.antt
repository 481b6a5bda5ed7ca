-- ===== src/Policy/Basic.antt =====
-- BasicPolicy of policy.go: what it decides after a failed attempt.
pub mod Laws
use agentwrap.Prelude.{
  ℕ, suc, ℤ, pos, ltb_ℤ, ltb, is_positive, increment, Time, Duration, is_zero_time, sub_time,
  String, Bool, true, false, Option, none, some, List, ◌&&◌, ◌||◌, not, is_none, is_nil, length,
  ◌==◌, if◌then◌else◌,
}
use agentwrap.Errors.{is_rate_limit, SdkError, ErrorCategory, PlainError}
use agentwrap.Contract.{SessionAction, RateLimitInfo, PolicyDecisionKind}
use agentwrap.Policy.Types.{
  FallbackAlternative, PolicyContext, PolicyDecision, zero_decision, at_int, context_policy_error,
  safe_err_detail,
}

-- A hook or a backoff that is nil is `none`.
pub record BasicPolicy : Type 0 where
  pub max_attempts_per_target : ℤ
  pub max_elapsed : Duration
  pub backoff : Option (PolicyContext → Duration)
  pub retry_rate_limits : Bool
  pub fallbacks : List FallbackAlternative
  pub should_retry_hook : Option (PolicyContext → Bool)
  pub should_fallback_hook : Option (PolicyContext → Bool)

abbrev pub is_runtime_exit : ErrorCategory → Bool
is_runtime_exit ErrorCategory.runtime_exit = true
is_runtime_exit _ = false

abbrev pub is_status : ℤ → ℕ → Bool
is_status (pos n) k = n == k
is_status _ k = false

-- The switch of defaultRetryable.
retryable_category : ErrorCategory → Bool → Bool
retryable_category ErrorCategory.timeout limited = true
retryable_category ErrorCategory.runtime_exit limited = true
retryable_category ErrorCategory.runtime_unavailable limited = true
retryable_category ErrorCategory.provider_unavailable limited = true
retryable_category ErrorCategory.model_unavailable limited = true
retryable_category ErrorCategory.malformed_event limited = true
retryable_category ErrorCategory.rate_limit limited = limited
retryable_category _ limited = false

unfoldable pub default_retryable : PolicyContext → Bool
unfolding retryable_category
default_retryable c = elim c.err [
  | none ↦ false
  | some err ↦ retryable_category err.category (
      not (is_none c.rate_limit)
      || is_positive err.retry_after
      || is_status err.status_code 429
      || is_status err.status_code 503)
]

-- The switch of defaultFallbackable.
fallbackable_category : ErrorCategory → Bool
fallbackable_category ErrorCategory.authentication = false
fallbackable_category ErrorCategory.permission = false
fallbackable_category ErrorCategory.configuration = false
fallbackable_category ErrorCategory.cancellation = false
fallbackable_category ErrorCategory.rate_limit = true
fallbackable_category ErrorCategory.timeout = true
fallbackable_category ErrorCategory.runtime_exit = true
fallbackable_category ErrorCategory.runtime_unavailable = true
fallbackable_category ErrorCategory.provider_unavailable = true
fallbackable_category ErrorCategory.model_unavailable = true
fallbackable_category ErrorCategory.malformed_event = true
fallbackable_category ErrorCategory.validation = true
fallbackable_category ErrorCategory.unknown = true
fallbackable_category _ = false

unfoldable pub default_fallbackable : PolicyContext → Bool
unfolding fallbackable_category
default_fallbackable c = elim c.err [ none ↦ false | some err ↦ fallbackable_category err.category ]

unfoldable pub should_retry : BasicPolicy → PolicyContext → Bool
unfolding default_retryable
should_retry p c = elim p.should_retry_hook [ some hook ↦ hook c | none ↦ default_retryable c ]

unfoldable pub should_fallback : BasicPolicy → PolicyContext → Bool
unfolding default_fallbackable
should_fallback p c = elim p.should_fallback_hook [
  | some hook ↦ hook c
  | none ↦ default_fallbackable c
]

unfoldable pub can_retry : BasicPolicy → PolicyContext → Bool
can_retry p c =
    if not (is_positive p.max_attempts_per_target)
    then false
    else ltb_ℤ (pos c.attempt_on_target) p.max_attempts_per_target

abbrev backoff_delay : BasicPolicy → PolicyContext → Duration
backoff_delay p c = elim p.backoff [ none ↦ pos 0 | some delay ↦ delay c ]

-- `wall` is the clock that time.Until reads.
unfoldable pub retry_delay : BasicPolicy → Time → PolicyContext → Duration
retry_delay p wall c = elim c.rate_limit [
  | none ↦ backoff_delay p c
  | some info ↦
      if is_positive info.retry_after
      then info.retry_after
      else if not (is_zero_time info.reset_at) && is_positive (sub_time info.reset_at wall)
      then sub_time info.reset_at wall
      else backoff_delay p c
]

-- The configured fallbacks, or the runner's alternatives where there are none.
unfoldable pub targets : BasicPolicy → PolicyContext → List FallbackAlternative
targets p c = if is_nil p.fallbacks then c.alternatives else p.fallbacks

unfoldable pub has_fallback : BasicPolicy → PolicyContext → Bool
unfolding targets
has_fallback p c = ltb_ℤ (increment c.target_index) (pos (suc (length (targets p c))))

unfoldable pub stop_for : PolicyContext → String → PolicyDecision
stop_for c reason = record zero_decision {
  kind = PolicyDecisionKind.stop;
  reason = reason;
  detail = safe_err_detail c.err;
  err = c.err;
}

unfoldable pub fallback_to : PolicyContext → String → FallbackAlternative → PolicyDecision
fallback_to c reason target = record zero_decision {
  kind = PolicyDecisionKind.fallback;
  reason = reason;
  detail = safe_err_detail c.err;
  target_index = increment c.target_index;
  target = some target;
  session_action = target.request.session_action;
  rate_limit = c.rate_limit;
}

-- `none` is the panic of an index out of range: `fallbacks[next-1]` is at the current index.
unfoldable pub fallback_or_stop : BasicPolicy → PolicyContext → String → Option PolicyDecision
unfolding has_fallback stop_for fallback_to
fallback_or_stop p c reason =
    if not (is_none c.err) && should_fallback p c && has_fallback p c
    then elim (at_int (targets p c) c.target_index) [
      | none ↦ none
      | some target ↦ some (fallback_to c reason target)
    ]
    else some (stop_for c reason)

unfoldable pub retry_for : BasicPolicy → Time → PolicyContext → SdkError → PolicyDecision
retry_for p wall c err = record zero_decision {
  kind = PolicyDecisionKind.retry;
  reason = if is_rate_limit err.category then "rate limit" else "retryable failure";
  detail = err.user_detail;
  delay = retry_delay p wall c;
  target_index = c.target_index;
  session_action = SessionAction.default;
  rate_limit = c.rate_limit;
}

abbrev pub time_exhausted : BasicPolicy → PolicyContext → Bool
time_exhausted p c = is_positive p.max_elapsed && not (ltb_ℤ c.elapsed p.max_elapsed)

decide_failure : BasicPolicy → Time → PolicyContext → SdkError → Option PolicyDecision
unfolding fallback_or_stop retry_for
decide_failure p wall c err =
    if time_exhausted p c
    then some (record zero_decision {
      kind = PolicyDecisionKind.stop;
      reason = "max elapsed time exhausted";
      err = some err;
    })
    else if is_rate_limit err.category && not p.retry_rate_limits
    then fallback_or_stop p c "rate limit retry disabled"
    else if is_runtime_exit err.category && has_fallback p c && should_fallback p c
    then fallback_or_stop p c "runtime exit"
    else if should_retry p c && can_retry p c
    then some (retry_for p wall c err)
    else fallback_or_stop p c "retry exhausted"

decide_at : BasicPolicy → Time → PolicyContext → Option SdkError → Option PolicyDecision
unfolding decide_failure
decide_at p wall c none =
    some (record zero_decision { kind = PolicyDecisionKind.stop; reason = "attempt completed" })
decide_at p wall c (some err) = decide_failure p wall c err

-- BasicPolicy.Decide, whose error is always nil. `done` is the context's error.
unfoldable pub decide :
    BasicPolicy → Option PlainError → Time → PolicyContext → Option PolicyDecision
unfolding decide_at
decide p (some done) wall c = some (record zero_decision {
  kind = PolicyDecisionKind.stop;
  err = some (context_policy_error done);
})
decide p none wall c = decide_at p wall c c.err
