-- ===== src/Examples/PolicyCases.antt =====
-- A policy run at a runtime that always times out, with one fallback and two attempts per target.
use agentwrap.Prelude.{
  ℕ, suc, ◌*◌, ◌≤◌, ltb, ℤ, pos, negsuc, ◌≤ℤ◌, ◌≡◌, refl, false, Option, none, some, [], ◌∷◌,
  length, Returns,
}
use agentwrap.Errors.{SdkError, ErrorCategory, new_error}
use agentwrap.Contract.{
  RunStatus, PolicyDecisionKind, SessionAction, zero_request, zero_context, zero_result,
}
use agentwrap.Dynamic.{no_fields}
use agentwrap.Policy.Types.{FallbackAlternative, PolicyContext, PolicyDecision}
use agentwrap.Policy.Backoff.{Floats, ExponentialBackoff, delay, delay_le_max}
use agentwrap.Policy.Basic.{
  BasicPolicy, decide, retry_delay, can_retry, should_retry, should_fallback,
}
use agentwrap.Policy.Basic.Laws.{Decided, IsStopFor, decide_total, decide_final}
use agentwrap.Policy.Requests.{normalize_decision, request_for_decision, fallback_request}
use agentwrap.Policy.Requests.Layers.{IsLayered, fallback_request-IsLayered}
use agentwrap.Policy.Summary.{rate_limit_from_result}
use agentwrap.Policy.Runner.State.{Environment, Started, Offer, PolicyRun, new_run}
use agentwrap.Policy.Runner.Stream.{send_event}
use agentwrap.Policy.Runner.Targets.{runtime_for, store_at, apply_decision_target}
use agentwrap.Policy.Runner.Attempt.{perform, keep_summary, policy_context}
use agentwrap.Policy.Runner.Finish.{finish}
use agentwrap.Policy.Runner.Execute.{Turn, ended, record_decision, execute}
use agentwrap.Policy.Runner.Execute.Invariant.{EndsWith}
use agentwrap.Policy.Runner.Execute.Books.{Reported}
use agentwrap.Policy.Runner.Execute.Audit.{execute-Reported}
use agentwrap.Policy.Runner.Execute.Limits.{basic_environment}
use agentwrap.Policy.Runner.Execute.Termination.{execute_ends}

abbrev timed_out : SdkError
unfolding new_error
timed_out = new_error ErrorCategory.timeout "run" "too slow" none []

abbrev denied : SdkError
unfolding new_error
denied = new_error ErrorCategory.permission "run" "denied" none []

-- The world is a clock that each reading moves on.
abbrev slow : Environment ℕ
slow = record {
  now = λ w. (suc w, suc w);
  ctx_err = λ w. (none, w);
  start_run = λ h r w. (Started.running h, w);
  run_events = λ h w. ([], w);
  run_wait =
      λ h w. ((record zero_result { status = RunStatus.failed; err = some timed_out }, none), w);
  offer = λ e w. (Offer.accepted, w);
  sleep = λ d w. (none, w);
  decide = λ c w. (none, w);
  wall = λ w. (w, w);
  show_duration = λ d. "0s";
}

abbrev twice : BasicPolicy
twice = record {
  max_attempts_per_target = pos 2;
  max_elapsed = pos 0;
  backoff = none;
  retry_rate_limits = false;
  fallbacks = [];
  should_retry_hook = none;
  should_fallback_hook = none;
}

abbrev other_runtime : FallbackAlternative
other_runtime = record {
  name = "other";
  runtime = some 8;
  request = zero_request;
  context = zero_context;
  metadata = no_fields;
}

execute_ends_example :
    Returns
      (λ (a : Turn × ℕ). EndsWith (λ r. length r.attempts ≤ 4) a.0)
      (execute
        (basic_environment twice slow)
        5
        (new_run 7 (other_runtime ∷ []) 1 100 zero_request)
        100)
execute_ends_example = execute_ends slow twice 7 (other_runtime ∷ []) 1 100 zero_request 100

outcome : Option (Turn × ℕ)
unfolding execute basic_environment new_run perform keep_summary policy_context finish decide
    normalize_decision request_for_decision apply_decision_target send_event runtime_for retry_delay
    can_retry should_retry should_fallback timed_out rate_limit_from_result record_decision store_at
outcome =
    execute (basic_environment twice slow) 5 (new_run 7 (other_runtime ∷ []) 1 100 zero_request) 100

abbrev run_of : Option (Turn × ℕ) → PolicyRun
run_of (some (ended r, w)) = r
run_of _ = new_run 7 [] 1 100 zero_request

abbrev clock_of : Option (Turn × ℕ) → ℕ
clock_of (some (t, w)) = w
clock_of none = 0

attempts_made : length (run_of outcome).attempts ≡ 4
unfolding outcome
attempts_made = refl

execute_Reported_example : Reported (run_of outcome)
unfolding outcome
execute_Reported_example =
    execute-Reported (basic_environment twice slow) 7 (other_runtime ∷ []) 1 100 zero_request 5 100
      (clock_of outcome) (run_of outcome) refl

-- Floats as the integers.
abbrev whole : Floats
whole = record {
  F = ℕ;
  of_duration = λ d. elim d [ pos n ↦ n | negsuc n ↦ 0 ];
  to_duration = λ n. pos n;
  multiply = λ a b. a * b;
  less = λ a b. ltb a b;
  one = 1;
}

abbrev doubling : ExponentialBackoff whole
doubling = record { initial = pos 3; factor = 2; max = pos 20 }

delays :
    (delay whole doubling 1 ≡ pos 3)
    × (delay whole doubling 3 ≡ pos 12)
    × (delay whole doubling 4 ≡ pos 20)
unfolding delay
delays = (refl, refl, refl)

delay_le_max_example : delay whole doubling 4 ≤ℤ pos 20
delay_le_max_example = delay_le_max whole doubling 4 refl

abbrev failed_on : ℤ → SdkError → PolicyContext
failed_on i e = record {
  original_request = zero_request;
  current_request = zero_request;
  attempt = 2;
  attempt_on_target = 2;
  target_index = i;
  target = other_runtime;
  alternatives = other_runtime ∷ [];
  prior_attempts = [];
  current_result = zero_result;
  err = some e;
  rate_limit = none;
  validation = none;
  started_at = 100;
  elapsed = pos 7;
  metadata = none;
}

decide_total_example :
    Returns
      (Decided twice (failed_on (pos 0) timed_out))
      (decide twice none 100 (failed_on (pos 0) timed_out))
decide_total_example = decide_total twice none 100 (failed_on (pos 0) timed_out) 0 refl

decide_final_example : Returns (IsStopFor denied) (decide twice none 100 (failed_on (pos 0) denied))
unfolding denied
decide_final_example = decide_final twice 100 (failed_on (pos 0) denied) denied tt refl refl refl

-- A decision that sets the model and carries a request of its own.
abbrev elsewhere : PolicyDecision
elsewhere = record {
  kind = PolicyDecisionKind.fallback;
  reason = "";
  detail = "";
  delay = pos 0;
  target_index = pos 1;
  target = none;
  request = some (record zero_request { model = "m" });
  session_action = SessionAction.continue;
  rate_limit = none;
  metadata = no_fields;
  err = none;
}

fallback_request-IsLayered_example :
    IsLayered
      (record zero_request { model = "old"; sandbox = "on" })
      elsewhere
      other_runtime
      (fallback_request
        (record zero_request { model = "old"; sandbox = "on" })
        elsewhere
        other_runtime)
fallback_request-IsLayered_example =
    fallback_request-IsLayered (record zero_request { model = "old"; sandbox = "on" }) elsewhere
      other_runtime
