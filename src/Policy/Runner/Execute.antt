-- ===== src/Policy/Runner/Execute.antt =====
-- The loop of policyRun.execute (policy.go). The children hold what is proved of it.
pub mod Invariant
pub mod Books
pub mod Audit
pub mod Limits
pub mod Steps
pub mod Termination
use agentwrap.Prelude.{
  ℕ, zero, suc, ◌+◌, ℤ, pos, is_positive, Time, String, Bool, true, false, Option, none, some, List,
  [], ◌∷◌, ◌++◌, length, is_none, if◌then◌else◌,
}
use agentwrap.Errors.{SdkError, ErrorCategory, PlainError, GoError, new_error, with_debug_detail}
use agentwrap.Dynamic.{Any, text, named, integer, instant, AnyMap, no_fields, put}
use agentwrap.Contract.{
  SessionAction, RunRequest, RunResult, RateLimitInfo, PolicyDecisionKind, PolicyDecisionRecord,
  zero_result,
}
use agentwrap.Events.Envelope.{Event, event_payload_with_kind}
use agentwrap.Events.Lifecycle.{action_text}
use agentwrap.Policy.Types.{PolicyContext, PolicyDecision, context_policy_error, ensure_sdk_error}
use agentwrap.Policy.Requests.{normalize_decision, request_for_decision, fallback_request}
use agentwrap.Policy.Runner.State.{Environment, Stream, PolicyRun}
use agentwrap.Policy.Runner.Stream.{send_event}
use agentwrap.Policy.Runner.Targets.{target_for, apply_decision_target}
use agentwrap.Policy.Runner.Attempt.{bump, perform, keep_summary, policy_context}
use agentwrap.Policy.Runner.Finish.{finish, finish_cancelled}

abbrev pub kind_text : PolicyDecisionKind → String
kind_text PolicyDecisionKind.unset = ""
kind_text PolicyDecisionKind.stop = "stop"
kind_text PolicyDecisionKind.retry = "retry"
kind_text PolicyDecisionKind.wait = "wait"
kind_text PolicyDecisionKind.fallback = "fallback"
kind_text (PolicyDecisionKind.other s) = s

abbrev event_type : PolicyDecisionKind → String
event_type PolicyDecisionKind.fallback = "fallback"
event_type _ = "retry"

-- An Event literal with a run, a type and a payload.
abbrev policy_event : String → String → AnyMap → Event
policy_event id type payload = record {
  id = "";
  run_id = id;
  session_id = "";
  time = 0;
  type = type;
  payload = some payload;
  raw = none;
}

-- The variables of the loop.
pub record Loop : Type 0 where
  pub run : PolicyRun
  pub target_index : ℤ
  pub req : RunRequest
  pub last : RunResult

-- The variables before the first round.
abbrev pub first_loop : PolicyRun → Loop
first_loop r = record { run = r; target_index = pos 0; req = r.original; last = zero_result }

-- How a round of the loop ends: the run is finished, the policy panicked, or another round follows.
pub data Turn : Type 0 where
  ended : PolicyRun → Turn
  panicked : Turn
  again : Loop → Turn

decision_record : ℕ → ℤ → PolicyDecision → PolicyContext → PolicyDecisionRecord
decision_record attempt target_index d c = record {
  attempt = attempt;
  target_index = target_index;
  kind = d.kind;
  reason = d.reason;
  detail = d.detail;
  delay = d.delay;
  context = c.current_result.metadata.context;
  rate_limit = d.rate_limit;
  metadata = d.metadata;
}

module _ {W : Type 0} (env : Environment W) where
  rate_limit_event : String → ℕ → ℤ → RateLimitInfo → Event
  rate_limit_event id attempt target_index info = policy_event id "rate_limit" (
      event_payload_with_kind "rate_limit" (
        some (
          put "attempt" (integer (pos attempt)) (
            put "target_index" (integer target_index) (
              put "provider" (named "ProviderID" info.provider) (
                put "model" (named "ModelID" info.model) (
                  put "retry_after" (text (env.show_duration info.retry_after)) (
                    put "reset_at" (instant info.reset_at)
                      (put "detail" (text info.user_detail) no_fields)))))))))

  decision_event : String → ℕ → ℤ → PolicyDecision → Event
  decision_event id attempt target_index d = policy_event id (event_type d.kind) (
      event_payload_with_kind (event_type d.kind) (
        some (
          put "attempt" (integer (pos attempt)) (
            put "target_index" (integer target_index) (
              put "decision" (named "PolicyDecisionKind" (kind_text d.kind)) (
                put "reason" (text d.reason) (
                  put "detail" (text d.detail) (
                    put "delay" (text (env.show_duration d.delay)) (
                      put "session_action" (named "SessionAction" (action_text d.session_action))
                        no_fields)))))))))

  send_rate_limit : String → ℕ → ℤ → Option RateLimitInfo → Stream → W → Stream × W
  unfolding rate_limit_event
  send_rate_limit id attempt target_index none s w = (s, w)
  send_rate_limit id attempt target_index (some info) s w =
      send_event env id (rate_limit_event id attempt target_index info) s w

  announce : PolicyDecisionKind → String → ℕ → ℤ → PolicyDecision → Stream → W → Stream × W
  unfolding send_rate_limit decision_event
  announce PolicyDecisionKind.stop id attempt target_index d s w = (s, w)
  announce _ id attempt target_index d s w =
      let (s', w') = send_rate_limit id attempt target_index d.rate_limit s w in
      send_event env id (decision_event id attempt target_index d) s' w'

  unfoldable pub record_decision :
      PolicyRun → ℕ → ℤ → PolicyDecision → PolicyContext → W → PolicyRun × W
  unfolding announce decision_record
  record_decision r attempt target_index d c w =
      let (s, w') = announce d.kind r.id attempt target_index d r.stream w in
      (
        record r {
          decisions = r.decisions ++ decision_record attempt target_index d c ∷ [];
          stream = s;
        },
        w',
      )

  abbrev finished : PolicyRun × W → Turn × W
  finished (r, w) = (ended r, w)

  -- The last switch of the loop, once the delay is over.
  proceed : PolicyDecisionKind → Loop → PolicyDecision → W → Turn × W
  proceed PolicyDecisionKind.retry l d w =
      (again (record l { req = request_for_decision l.req d }), w)
  proceed PolicyDecisionKind.wait l d w =
      (again (record l { req = request_for_decision l.req d }), w)
  proceed PolicyDecisionKind.fallback l d w =
      let r = apply_decision_target l.run d in
      (
        again (record l {
          run = r;
          target_index = d.target_index;
          req = fallback_request r.original d (target_for r d.target_index);
        }),
        w,
      )
  proceed kind l d w =
      let e =
        new_error ErrorCategory.configuration "policy decision" "unsupported policy decision" none
          (with_debug_detail (kind_text d.kind) ∷ []) in
      finished (
        finish env l.run (record l.last { err = some e }) (some e) true
          "unsupported policy decision" w)

  after_sleep : Option PlainError → Loop → PolicyDecision → W → Turn × W
  unfolding proceed
  after_sleep none l d w = proceed d.kind l d w
  after_sleep (some e) l d w =
      let err = context_policy_error e in
      finished (
        finish env l.run (record l.last { err = some err }) (some err) true "policy wait cancelled"
          w)

  wait_and_proceed : Loop → PolicyDecision → W → Turn × W
  unfolding after_sleep
  wait_and_proceed l d w =
      if is_positive d.delay
      then (let (e, w') = env.sleep d.delay w in after_sleep e l d w')
      else after_sleep none l d w

  abbrev stop_err : PolicyDecision → RunResult → Option SdkError
  stop_err d last = elim d.err [ none ↦ last.err | some e ↦ some e ]

  -- A normalised decision: a stop ends the run, all else waits and proceeds.
  act : PolicyDecisionKind → Loop → PolicyDecision → W → Turn × W
  unfolding wait_and_proceed
  act PolicyDecisionKind.stop l d w = finished (
      finish env l.run (record l.last { err = stop_err d l.last }) (stop_err d l.last) true d.reason
        w)
  act _ l d w = wait_and_proceed l d w

  -- The policy's answer.
  pub follow : Option (PolicyDecision × Option GoError) → Loop → ℕ → PolicyContext → W → Turn × W
  unfolding act
  follow none l attempt c w = (panicked, w)
  follow (some (d, some e)) l attempt c w =
      let err = ensure_sdk_error e "policy decide" in
      finished (
        finish env l.run (record l.last { err = some err }) (some err) true "policy decision failed"
          w)
  follow (some (d, none)) l attempt c w =
      let d' = normalize_decision d c in
      let (r, w') = record_decision l.run attempt l.target_index d' c w in
      act d'.kind (record l { run = r }) d' w'

  -- After the attempt's summary: a result without an error ends the run.
  consult : Option SdkError → Loop → ℕ → ℕ → W → Turn × W
  unfolding follow
  consult none l attempt attempt_on_target w = finished (finish env l.run l.last none false "" w)
  consult (some err) l attempt attempt_on_target w =
      let (c, w1) =
        policy_context env l.run attempt attempt_on_target l.target_index l.req l.last err w in
      let (answer, w2) = env.decide c w1 in follow answer l attempt c w2

  attempt_round : Loop → W → Turn × W
  unfolding consult
  attempt_round l w =
      let r0 = record l.run { target_counts = bump l.run.target_counts l.target_index } in
      let attempt = suc (length r0.attempts) in
      let attempt_on_target = r0.target_counts l.target_index in
      let (started, w1) = env.now w in
      let (performed, w2) = perform env r0 attempt l.target_index l.req started w1 in
      let (r1, last) = performed in
      let (r2, w3) =
        keep_summary env r1 attempt attempt_on_target l.target_index l.req started last w2 in
      consult last.err (record l { run = r2; last = last }) attempt attempt_on_target w3

  guarded : Option PlainError → Loop → W → Turn × W
  unfolding attempt_round
  guarded (some done) l w = finished (finish_cancelled env l.run l.last done w)
  guarded none l w = attempt_round l w

  -- One round of the loop.
  unfoldable pub round : Loop → W → Turn × W
  unfolding guarded
  round l w = let (e, w') = env.ctx_err w in guarded e l w'

  -- `none` where the fuel runs out.
  unfoldable pub rounds : ℕ → Turn × W → Option (Turn × W)
  unfolding round
  rounds fuel (ended r, w) = some (ended r, w)
  rounds fuel (panicked, w) = some (panicked, w)
  rounds zero (again l, w) = none
  rounds (suc fuel) (again l, w) = rounds fuel (round l w)

  -- policyRun.execute
  unfoldable pub execute : ℕ → PolicyRun → W → Option (Turn × W)
  unfolding rounds
  execute fuel r w = rounds fuel (again (first_loop r), w)
