-- ===== src/Validation/Runner/Repair.antt =====
-- The parts of a validating run (validation.go): running the inner runtime, validating, repairing.
pub mod Same
use agentwrap.Prelude.{
  ℕ, pos, ◌==◌, Time, String, Bool, true, false, ◌&&◌, ◌||◌, not, is_none, Option, none, some, List,
  [], ◌∷◌, if◌then◌else◌,
}
use agentwrap.Errors.{
  ErrorCategory, category_text, SdkError, PlainError, GoError, sdk, new_error, with_debug_detail,
}
use agentwrap.Dynamic.{
  Any, text, integer, boolean, items, fields, typed, AnyList, no_items, item, AnyMap, no_fields,
  put,
}
use agentwrap.Events.Envelope.{Event, event_payload_with_kind}
use agentwrap.Contract.{
  Handle, RunStatus, SessionAction, SessionRelationship, RunRequest, RunResult, ValidationFailure,
  ValidationResult, RepairConfig, RepairAttemptSummary, zero_result,
}
use agentwrap.Policy.Types.{ensure_sdk_error, first_time}
use agentwrap.Policy.Runner.State.{Started, refused, running}
use agentwrap.Validation.Checks.{kind_text}
use agentwrap.Validation.Expectations.{validate_run}
use agentwrap.Validation.Runner.State.{Environment, Stream, ValidationRun, RepairContext}
use agentwrap.Validation.Runner.Stream.{send_event, forward_events, send_lifecycle}
use agentwrap.Validation.Runner.Results.{
  context_validation_error, first_sdk_error, repair_request, repair_summary,
}

-- An Event literal with a run, a session, a type and a payload of kind "validation".
abbrev validation_event : String → String → String → AnyMap → Event
validation_event id session type payload = record {
  id = "";
  run_id = id;
  session_id = session;
  time = 0;
  type = type;
  payload = some (event_payload_with_kind "validation" (some payload));
  raw = none;
}

failure_fields : ValidationFailure → AnyMap
failure_fields f = put "expectation_id" (text f.expectation_id) (
    put "kind" (text (kind_text f.kind)) (
      put "expected" (text f.expected) (
        put "observed" (text f.observed)
          (put "detail" (text f.detail) (put "repair_hint" (text f.repair_hint) no_fields)))))

failure_items : List ValidationFailure → AnyList
unfolding failure_fields
failure_items [] = no_items
failure_items (f ∷ fs) = item (fields (failure_fields f)) (failure_items fs)

-- safeFailurePayload
unfoldable pub safe_failure_payload : List ValidationFailure → Any
unfolding failure_items
safe_failure_payload failures = typed "[]map[string]string" (items (failure_items failures))

completed_payload : ValidationResult → AnyMap
unfolding safe_failure_payload
completed_payload v = put "passed" (boolean v.passed) (
    put "passed_count" (integer (pos v.passed_count)) (
      put "failed_count" (integer (pos v.failed_count)) (
        put "skipped_count" (integer (pos v.skipped_count))
          (put "failures" (safe_failure_payload v.failures) no_fields))))

-- setCurrent and clearCurrent
abbrev cleared : Option Handle → Handle → Option Handle
cleared none h = none
cleared (some c) h = if c == h then none else some c

unfoldable pub set_current : ValidationRun → Handle → ValidationRun
set_current r h = record r { current = some h }

unfoldable pub clear_current : ValidationRun → Handle → ValidationRun
clear_current r h = record r { current = cleared r.current h }

-- The error of Wait, where the result has none itself; and the result with the error it then has.
with_wait_error : RunResult → Option SdkError → Option GoError → RunResult
with_wait_error r none (some e) = record r { err = some (ensure_sdk_error e "validation wait") }
with_wait_error r _ _ = r

abbrev as_error : Option SdkError → Option GoError
as_error none = none
as_error (some e) = some (sdk e)

-- What startAndWait returns: the result and an error.
abbrev pub Answer : Type 0
Answer = RunResult × Option GoError

refused_result : String → Time → Time → SdkError → RunResult
refused_result id started finished e = record zero_result {
  run_id = id;
  status = RunStatus.failed;
  started_at = started;
  finished_at = finished;
  err = some e;
}

is_continue : SessionAction → Bool
is_continue SessionAction.continue = true
is_continue _ = false

is_unsupported : SessionRelationship → Bool
is_unsupported SessionRelationship.unsupported = true
is_unsupported _ = false

-- freshRepairFallbackAllowed
unfoldable pub fresh_repair_fallback_allowed : Option SdkError → Bool
fresh_repair_fallback_allowed none = false
fresh_repair_fallback_allowed (some e) = elim e.category [
  | ErrorCategory.cancellation ↦ false
  | ErrorCategory.timeout ↦ false
  | ErrorCategory.permission ↦ false
  | _ ↦ true
]

-- The two tests of runRepair on the first answer to a repair's request.
unfoldable pub unsupported_continue : RunRequest → RunResult → Bool
unfolding is_continue is_unsupported
unsupported_continue req result =
    is_unsupported result.metadata.session.relationship && is_continue req.session_action

unfoldable pub failed_continue : RepairConfig → RunRequest → Answer → Bool
unfolding is_continue fresh_repair_fallback_allowed
failed_continue config req (result, err) =
    not (is_none err)
    && is_continue req.session_action
    && config.fresh_session_fallback_on_error
    && fresh_repair_fallback_allowed (first_sdk_error result.err err)

unsupported_error : RunResult → SdkError
unfolding new_error
unsupported_error result =
    new_error ErrorCategory.repair_exhausted "validation repair"
      "same-session repair is unsupported" none
      (with_debug_detail result.metadata.session.unsupported_reason ∷ [])

unsupported_summary : RepairAttemptSummary → SdkError → RepairAttemptSummary
unsupported_summary summary e = record summary {
  unsupported_session = true;
  status = RunStatus.failed;
  error = some e;
  error_category = e.category;
}

module _ {W : Type 0} (env : Environment W) where
  await : ValidationRun → Handle → W → (ValidationRun × Answer) × W
  unfolding set_current clear_current with_wait_error
  await r h w =
      let r1 = set_current r h in
      let (events, w1) = env.run_events h w in
      let (stream, w2) = forward_events env r1.id events r1.stream w1 in
      let (answer, w3) = env.run_wait h w2 in
      let (waited, wait_err) = answer in
      let result = with_wait_error waited waited.err wait_err in
      ((clear_current (record r1 { stream = stream }) h, (result, as_error result.err)), w3)

  settle : Started → ValidationRun → Time → W → (ValidationRun × Answer) × W
  unfolding await refused_result
  settle (refused err) r started w =
      let e = ensure_sdk_error err "validation start" in
      let (finished, w') = env.now w in
      ((r, (refused_result r.id started finished e, some (sdk e))), w')
  settle (running h) r started w = await r h w

  unfoldable pub start_and_wait : ValidationRun → RunRequest → W → (ValidationRun × Answer) × W
  unfolding settle
  start_and_wait r req w =
      let (started, w1) = env.now w in
      let (answer, w2) = env.start_run r.runtime req w1 in settle answer r started w2

  report_validation :
      Option PlainError
      → ValidationRun
      → RunResult
      → ValidationResult
      → W
      → (ValidationRun × Option SdkError) × W
  unfolding completed_payload
  report_validation (some err) r result v w =
      let (s, w') =
        send_lifecycle env r.id result RunStatus.validating RunStatus.cancelled
          "validation cancelled" r.stream w in
      ((record r { stream = s }, some (context_validation_error err)), w')
  report_validation none r result v w =
      let (s1, w1) =
        send_event env r.id
          (validation_event r.id result.session_id "validation.completed" (completed_payload v))
          r.stream w in
      let (s2, w2) =
        send_lifecycle env r.id result RunStatus.validating RunStatus.completed
          "validation completed" s1 w1 in
      ((record r { stream = s2 }, none), w2)

  -- validationRun.validate
  unfoldable pub validate :
      ValidationRun
      → RunRequest
      → RunResult
      → RunStatus
      → W
      → (ValidationRun × ValidationResult × Option SdkError) × W
  unfolding report_validation
  validate r req result from w =
      let (s1, w1) =
        send_lifecycle env r.id result from RunStatus.validating "validation started" r.stream w in
      let (s2, w2) =
        send_event env r.id
          (validation_event r.id result.session_id "validation.started"
            (put "phase" (text "started") no_fields))
          s1 w1 in
      let (v, w3) = validate_run env req result r.spec w2 in
      let (done, w4) = env.ctx_err w3 in
      let (reported, w5) = report_validation done (record r { stream = s2 }) result v w4 in
      let (r', err) = reported in ((r', v, err), w5)

  abbrev attempt_payload : ℕ → AnyMap
  attempt_payload attempt = put "attempt" (integer (pos attempt)) no_fields

  -- What is announced and returned of a repair.
  conclude :
      Option SdkError
      → ValidationRun
      → ℕ
      → RunResult
      → RepairAttemptSummary
      → W
      → (ValidationRun × RunResult × RepairAttemptSummary × Option SdkError) × W
  conclude (some e) r attempt result summary w =
      let (s, w') =
        send_event env r.id
          (validation_event r.id result.session_id "repair.failed" (
            put "attempt" (integer (pos attempt))
              (put "error_category" (text (category_text e.category)) no_fields)))
          r.stream w in
      ((record r { stream = s }, result, summary, some e), w')
  conclude none r attempt result summary w =
      let (s, w') =
        send_event env r.id
          (validation_event r.id result.session_id "repair.completed" (attempt_payload attempt))
          r.stream w in
      ((record r { stream = s }, result, summary, none), w')

  finish_repair :
      ValidationRun
      → ℕ
      → Answer
      → RepairAttemptSummary
      → W
      → (ValidationRun × RunResult × RepairAttemptSummary × Option SdkError) × W
  unfolding conclude
  finish_repair r attempt (result, none) summary w = conclude none r attempt result summary w
  finish_repair r attempt (result, some err) summary w =
      conclude (first_sdk_error result.err (some err)) r attempt result summary w

  fallback_reason : Bool → String
  fallback_reason true = "fresh session fallback after unsupported same-session repair"
  fallback_reason false = "fresh session fallback after failed same-session repair"

  -- The repair once more, in a fresh session.
  fresh_repair :
      Bool
      → ValidationRun
      → ℕ
      → RunRequest
      → Time
      → W
      → (ValidationRun × RunResult × RepairAttemptSummary × Option SdkError) × W
  unfolding finish_repair fallback_reason
  fresh_repair unsupported r attempt req started w =
      let fallback = record req { session_action = SessionAction.fresh; session_id = "" } in
      let (answered, w1) = start_and_wait r fallback w in
      let (r1, answer) = answered in
      let (result, err) = answer in
      let (t, w2) = env.wall w1 in
      finish_repair r1 attempt (result, err)
        (record (repair_summary env attempt r.id fallback started t result) {
          unsupported_session = unsupported;
          policy_decision_reason = fallback_reason unsupported;
        })
        w2

  -- The repair ends, as its session cannot be continued.
  unsupported_repair :
      ValidationRun
      → ℕ
      → RunResult
      → RepairAttemptSummary
      → W
      → (ValidationRun × RunResult × RepairAttemptSummary × Option SdkError) × W
  unfolding finish_repair unsupported_error unsupported_summary
  unsupported_repair r attempt result summary w =
      let e = unsupported_error result in
      finish_repair r attempt
        (record result { err = some e; status = RunStatus.failed }, some (sdk e))
        (unsupported_summary summary e) w

  -- The branches of runRepair on its first answer: whether it falls back to a fresh session, and
  -- whether the session could not be continued.
  after_repair :
      Bool
      → Bool
      → ValidationRun
      → ℕ
      → RunRequest
      → Time
      → Answer
      → RepairAttemptSummary
      → W
      → (ValidationRun × RunResult × RepairAttemptSummary × Option SdkError) × W
  unfolding fresh_repair unsupported_repair finish_repair
  after_repair true unsupported r attempt req started a summary w =
      fresh_repair unsupported r attempt req started w
  after_repair false true r attempt req started (result, err) summary w =
      unsupported_repair r attempt result summary w
  after_repair false false r attempt req started a summary w = finish_repair r attempt a summary w

  -- The repair's request is run, and its answer looked at.
  try_repair :
      ValidationRun
      → ℕ
      → RunRequest
      → Time
      → W
      → (ValidationRun × RunResult × RepairAttemptSummary × Option SdkError) × W
  unfolding after_repair
  try_repair r attempt req started w =
      let (answered, w1) = start_and_wait r req w in
      let (r1, answer) = answered in
      let (result, err) = answer in
      let (t, w2) = env.now w1 in
      let unsupported = unsupported_continue req result in
      let failed = failed_continue r.spec.repair req (result, err) in
      after_repair ((unsupported || failed) && r.spec.repair.allow_fresh_session_fallback)
        unsupported r1 attempt req started (result, err)
        (repair_summary env attempt r.id req started t result) w2

  -- The events that announce a repair.
  announce_repair : ValidationRun → RepairContext → W → ValidationRun × W
  announce_repair r c w =
      let (s1, w1) =
        send_lifecycle env r.id c.current_result RunStatus.validating RunStatus.repairing
          "repair started" r.stream w in
      let (s2, w2) =
        send_event env r.id
          (validation_event r.id c.current_result.session_id "repair.started"
            (attempt_payload c.attempt))
          s1 w1 in
      (record r { stream = s2 }, w2)

  -- validationRun.runRepair
  unfoldable pub run_repair :
      ValidationRun
      → RunRequest
      → RepairContext
      → W
      → (ValidationRun × RunResult × RepairAttemptSummary × Option SdkError) × W
  unfolding announce_repair try_repair
  run_repair r req c w =
      let (repair_req, w1) = repair_request env req r.spec.repair c w in
      let (r1, w2) = announce_repair r c w1 in
      let (started, w3) = env.now w2 in try_repair r1 c.attempt repair_req started w3
