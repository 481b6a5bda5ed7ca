-- ===== src/Validation/Runner/Results.antt =====
-- What a validating run (validation.go) writes into results: errors, statuses, metadata, the request
-- and the summary of a repair.
use agentwrap.Prelude.{
  ℕ, ℤ, pos, leb, is_positive, Time, sub_time, String, Bool, true, false, ◌&&◌, not, Option, none,
  some, List, [], ◌∷◌, length, get_last?, is_nil, ◌≡◌, refl, ◌∙◌, is_empty, str_append, str_eq,
  if◌then◌else◌,
}
use agentwrap.Errors.{
  ErrorCategory, category_text, SdkError, PlainError, canceled, deadline_exceeded, message, GoError,
  new_error,
}
use agentwrap.Redact.{redact_string_map}
use agentwrap.Permissions.Types.{PermissionPolicy, summary}
use agentwrap.Contract.{
  RunStatus, SessionAction, is_default_action, RunRequest, RunResult, ValidationFailure,
  ValidationResult, RepairConfig, ValidationSpec, RepairAttemptSummary, RepairMetadata,
  zero_validation, zero_repair,
}
use agentwrap.Policy.Types.{ensure_sdk_error, first_time}
use agentwrap.Policy.Summary.{category_of}
use agentwrap.Policy.Requests.{attempt_request}
use agentwrap.Validation.Runner.State.{Environment, RepairContext}

-- contextValidationError of an error that is not nil; of nil it is nil.
unfoldable pub context_validation_error : PlainError → SdkError
unfolding new_error
context_validation_error canceled =
    new_error ErrorCategory.cancellation "validation" "validation run was cancelled" (some canceled)
      []
context_validation_error deadline_exceeded =
    new_error ErrorCategory.timeout "validation" "validation run timed out" (some deadline_exceeded)
      []
context_validation_error (message n s) =
    new_error ErrorCategory.unknown "validation" s (some (message n s)) []

-- firstSDKError
unfoldable pub first_sdk_error : Option SdkError → Option GoError → Option SdkError
first_sdk_error (some e) err = some e
first_sdk_error none none = none
first_sdk_error none (some err) = some (ensure_sdk_error err "validation")

abbrev pub cancelled_or_failed : ErrorCategory → RunStatus
cancelled_or_failed ErrorCategory.cancellation = RunStatus.cancelled
cancelled_or_failed _ = RunStatus.failed

-- statusForError
abbrev pub status_for_error : Option SdkError → RunStatus
status_for_error none = RunStatus.completed
status_for_error (some e) = cancelled_or_failed e.category

abbrev pub same_error : SdkError → SdkError → Bool
same_error a b =
    str_eq (category_text a.category) (category_text b.category)
    && str_eq a.operation b.operation
    && str_eq a.user_detail b.user_detail

-- appendSDKError of an error that is not nil; with nil the list stays.
unfoldable pub append_sdk_error : List SdkError → SdkError → List SdkError
append_sdk_error [] err = err ∷ []
append_sdk_error (e ∷ errors) err =
    let rest = append_sdk_error errors err in if same_error e err then e ∷ errors else e ∷ rest

-- The loop of withValidationMetadata over the repairs.
note_repair : RepairMetadata → RepairAttemptSummary → RepairMetadata
note_repair m repair = record m {
  permission_policy_id =
      if is_empty m.permission_policy_id
      then repair.permission_policy_id
      else m.permission_policy_id;
  permission_denied = elim repair.error_category [
    | ErrorCategory.permission ↦ true
    | _ ↦ m.permission_denied
  ];
  unsupported_same_session =
      if repair.unsupported_session then true else m.unsupported_same_session;
}

note_repairs : RepairMetadata → List RepairAttemptSummary → RepairMetadata
unfolding note_repair
note_repairs m [] = m
note_repairs m (repair ∷ repairs) = note_repairs (note_repair m repair) repairs

-- len(repairs) >= n, of a number that may be negative.
abbrev pub reached : ℕ → ℤ → Bool
reached count (pos n) = leb n count
reached count (ℤ.negsuc n) = true

abbrev pub last_or_zero : Option ValidationResult → ValidationResult
last_or_zero none = zero_validation
last_or_zero (some v) = v

abbrev pub last_failed : Option ValidationResult → Bool
last_failed none = false
last_failed (some v) = not v.passed

repair_metadata :
    ValidationSpec → List ValidationResult → List RepairAttemptSummary → RepairMetadata
unfolding note_repairs
repair_metadata spec history repairs =
    let noted =
      note_repairs
        (record zero_repair {
          configured = is_positive spec.repair.max_attempts;
          attempted = not (is_nil repairs);
          max_attempts = spec.repair.max_attempts;
          attempts = repairs;
        })
        repairs in
    if is_positive spec.repair.max_attempts
      && reached (length repairs) spec.repair.max_attempts
      && last_failed (get_last? history)
    then record noted { exhausted = true; exhausted_reason = "max repair attempts exhausted" }
    else noted

-- withValidationMetadata
unfoldable pub with_validation_metadata :
    RunResult → ValidationSpec → List ValidationResult → List RepairAttemptSummary → RunResult
unfolding repair_metadata
with_validation_metadata result spec history repairs = record result {
  metadata = record result.metadata {
    validation = record {
      configured = not (is_nil spec.expectations && is_nil spec.validators);
      final = last_or_zero (get_last? history);
      history = history;
    };
    repair = repair_metadata spec history repairs;
  };
}

failure_line : ValidationFailure → String
failure_line f = str_append "\n- " (
    str_append f.expectation_id (
      str_append ": expected " (
        str_append f.expected (
          str_append "; observed " (
            str_append f.observed
              (if is_empty f.repair_hint then "" else str_append "; hint " f.repair_hint))))))

failure_lines : List ValidationFailure → String
unfolding failure_line
failure_lines [] = ""
failure_lines (f ∷ fs) = str_append (failure_line f) (failure_lines fs)

-- defaultRepairPrompt
unfoldable pub default_repair_prompt : RepairContext → String
unfolding failure_lines
default_repair_prompt c =
    str_append
      "Repair the previous run output so it satisfies these validation failures. Preserve the existing task intent and update durable artifacts instead of relying on terminal output.\n"
      (failure_lines c.validation.failures)

-- The request of a repair, before the hooks of the caller.
unfoldable pub plain_repair_request : RunRequest → RepairConfig → RepairContext → RunRequest
unfolding default_repair_prompt
plain_repair_request req config c = record req {
  validation = none;
  session_action =
      if is_default_action config.session_action
      then SessionAction.continue
      else config.session_action;
  session_id = if is_empty req.session_id then c.current_result.session_id else req.session_id;
  prompt = default_repair_prompt c;
}

module _ {W : Type 0} (env : Environment W) where
  with_prompt : RunRequest → RepairConfig → RepairContext → W → RunRequest × W
  with_prompt next config c w = elim config.build_prompt [
    | none ↦ (next, w)
    | some hook ↦
        let (prompt, w') = env.build_prompt hook c w in (record next { prompt = prompt }, w')
  ]

  -- repairRequest
  unfoldable pub repair_request : RunRequest → RepairConfig → RepairContext → W → RunRequest × W
  unfolding plain_repair_request with_prompt
  repair_request req config c w =
      let (next, w') = with_prompt (plain_repair_request req config c) config c w in
      elim config.override_request [
        | none ↦ (next, w')
        | some hook ↦ env.override_request hook c next w'
      ]

  -- permissionPolicyID
  unfoldable pub permission_policy_id : Option PermissionPolicy → String
  unfolding summary redact_string_map
  permission_policy_id none = ""
  permission_policy_id (some p) = (summary env.encode (redact_string_map env.patterns) p).id

  -- repairSummary; `now` is the instant of the clock, used where the result has no end of its own.
  unfoldable pub repair_summary :
      ℕ → String → RunRequest → Time → Time → RunResult → RepairAttemptSummary
  unfolding permission_policy_id
  repair_summary attempt parent req started now result = record {
    attempt = attempt;
    run_id = result.run_id;
    parent_run_id = parent;
    request = attempt_request req;
    status = result.status;
    started_at = first_time result.started_at started;
    finished_at = first_time result.finished_at now;
    duration = sub_time (first_time result.finished_at now) (first_time result.started_at started);
    session = result.metadata.session;
    permissions = result.metadata.permissions;
    validation = zero_validation;
    error_category = category_of result.err;
    error = result.err;
    unsupported_session = false;
    permission_policy_id = permission_policy_id req.permission_policy;
    policy_decision_reason = "";
  }

note_repairs-attempts :
    (m : RepairMetadata) (repairs : List RepairAttemptSummary)
    → (note_repairs m repairs).attempts ≡ m.attempts
unfolding note_repairs note_repair
note_repairs-attempts m [] = refl
note_repairs-attempts m (r ∷ rs) = note_repairs-attempts (note_repair m r) rs

if-attempts :
    (b : Bool) (m : RepairMetadata) (reason : String)
    → (if b then record m { exhausted = true; exhausted_reason = reason } else m).attempts
      ≡ m.attempts
if-attempts true m reason = refl
if-attempts false m reason = refl

-- The metadata list the repairs that they are made of.
pub with_validation_metadata-attempts :
    (result : RunResult) (spec : ValidationSpec) (history : List ValidationResult)
    (repairs : List RepairAttemptSummary)
    → (with_validation_metadata result spec history repairs).metadata.repair.attempts ≡ repairs
unfolding with_validation_metadata repair_metadata
with_validation_metadata-attempts result spec history repairs =
    if-attempts _ _ _ ∙ note_repairs-attempts _ repairs
