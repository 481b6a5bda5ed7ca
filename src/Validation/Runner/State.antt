-- ===== src/Validation/Runner/State.antt =====
-- The state of a validating run (validation.go), and what the run takes from outside.
use agentwrap.Prelude.{
  ℕ, ℤ, Time, String, ◌⊎◌, Bool, Option, none, some, List, [], str_append, decimal,
}
use agentwrap.Errors.{SdkError, ErrorCategory, PlainError, GoError, new_error}
use agentwrap.Dynamic.{Any}
use agentwrap.Redact.{Patterns}
use agentwrap.Permissions.Types.{PermissionPolicySummary}
use agentwrap.Contract.{
  Handle, RunRequest, RunResult, ValidationSpec, ValidationCheck, ValidationResult,
}
use agentwrap.Events.Envelope.{Event}
use agentwrap.Policy.Runner.State.{Started, Offer}

pub record RepairContext : Type 0 where
  pub original_request : RunRequest
  pub current_result : RunResult
  pub validation : ValidationResult
  pub attempt : ℕ
  pub max_attempts : ℤ

pub record ValidationContext : Type 0 where
  pub request : RunRequest
  pub result : RunResult
  pub work_dir : String

-- What a run asks of the world `W`: clocks, context, the wrapped runtime and its runs, the reader of
-- its channel, the hooks of the caller, and the files. `stat` tells whether what is there is a
-- directory, `read_file` gives a file's text, and both are `none` on an error. `unmarshal` is
-- encoding/json's reading of a text: the error's text, or the value and the print of its type by %T.
-- `is_abs` and `join` are path/filepath's, `encode` is the JSON text with its hash.
pub record Environment (W : Type 0) : Type 0 where
  pub now : W → Time × W
  pub wall : W → Time × W
  pub ctx_err : W → Option PlainError × W
  pub start_run : Handle → RunRequest → W → Started × W
  pub run_events : Handle → W → List Event × W
  pub run_wait : Handle → W → (RunResult × Option GoError) × W
  pub offer : Event → W → Offer × W
  pub should_repair : Handle → RepairContext → W → Bool × W
  pub build_prompt : Handle → RepairContext → W → String × W
  pub override_request : Handle → RepairContext → RunRequest → W → RunRequest × W
  pub run_validator : Handle → ValidationContext → W → ValidationCheck × W
  pub stat : String → W → Option Bool × W
  pub read_file : String → W → Option String × W
  pub unmarshal : String → String ⊎ (Any × String)
  pub is_abs : String → Bool
  pub join : String → String → String
  pub encode : PermissionPolicySummary → Option String
  pub patterns : Patterns

-- `sent` are the events that the channel took.
pub record Stream : Type 0 where
  pub seq : ℕ
  pub sent : List Event

-- `result` is the zero result, here `none`, until `finish`; Wait reads it after that.
pub record ValidationRun : Type 0 where
  pub id : String
  pub runtime : Handle
  pub spec : ValidationSpec
  pub original : RunRequest
  pub started : Time
  pub stream : Stream
  pub current : Option Handle
  pub result : Option RunResult
  pub wait_err : Option SdkError

-- The record that ValidatingRuntime.StartRun makes; `counter` is what validationRunCounter counted to.
unfoldable pub new_run : Handle → ValidationSpec → ℕ → Time → RunRequest → ValidationRun
new_run runtime spec counter started req = record {
  id = str_append "validation-" (decimal counter);
  runtime = runtime;
  spec = elim req.validation [ none ↦ spec | some own ↦ own ];
  original = req;
  started = started;
  stream = record { seq = 0; sent = [] };
  current = none;
  result = none;
  wait_err = none;
}

-- ValidatingRuntime.StartRun, up to the goroutine that it starts.
pub data StartResult : Type 0 where
  rejected : SdkError → StartResult
  accepted : ValidationRun → StartResult

unfoldable pub start_run : Option Handle → ValidationSpec → ℕ → Time → RunRequest → StartResult
unfolding new_run
start_run none spec counter started req =
    StartResult.rejected
      (new_error ErrorCategory.configuration "validation runner" "runtime is required" none [])
start_run (some runtime) spec counter started req =
    StartResult.accepted (new_run runtime spec counter started req)

-- validationRun.Cancel, after it has cancelled the context: the run to which it passes the call on.
pub cancelled_run : ValidationRun → Option Handle
cancelled_run r = r.current
