-- ===== src/Policy/Runner/State.antt =====
-- The state of a policy run, and what the run takes from outside.
use agentwrap.Prelude.{
  ℕ, ℤ, Time, Duration, String, Option, none, some, List, [], str_append, decimal,
}
use agentwrap.Errors.{SdkError, ErrorCategory, PlainError, GoError, new_error}
use agentwrap.Contract.{
  Handle, RunRequest, RunResult, AttemptSummary, PolicyDecisionRecord, PolicyDroppedEvent,
}
use agentwrap.Events.Envelope.{Event}
use agentwrap.Policy.Types.{FallbackAlternative, PolicyContext, PolicyDecision}

-- What StartRun of a runtime answers.
pub data Started : Type 0 where
  refused : GoError → Started
  running : Handle → Started

-- The `select` of sendEvent: the context has ended, the channel takes the event, or it is full.
-- Where several cases are ready Go picks any, so the environment answers.
pub data Offer : Type 0 where
  context_done accepted full : Offer

-- What the run asks of the world `W`: the clock and the sleep that PolicyRunner carries, its
-- context, runtimes and their runs, the readers of its channel, and its policy. A run's events are
-- all that its channel yields until it is closed; the goroutine that forwards them is waited for
-- before the attempt is summed up, and shares with Wait only the world. A policy that panics
-- answers `none`; `show_duration` is Duration.String.
pub record Environment (W : Type 0) : Type 0 where
  pub now : W → Time × W
  pub ctx_err : W → Option PlainError × W
  pub start_run : Handle → RunRequest → W → Started × W
  pub run_events : Handle → W → List Event × W
  pub run_wait : Handle → W → (RunResult × Option GoError) × W
  pub offer : Event → W → Offer × W
  pub sleep : Duration → W → Option PlainError × W
  pub decide : PolicyContext → W → Option (PolicyDecision × Option GoError) × W
  pub wall : W → Time × W
  pub show_duration : Duration → String

-- What eventMu guards, with the events that the channel took.
pub record Stream : Type 0 where
  pub seq : ℕ
  pub sent : List Event
  pub dropped : List PolicyDroppedEvent

-- `result` and `wait_err` are nil, and the zero result, until `finish`; Wait reads them after it.
pub record PolicyRun : Type 0 where
  pub id : String
  pub original : RunRequest
  pub primary : Handle
  pub alternatives : List FallbackAlternative
  pub started : Time
  pub stream : Stream
  pub attempts : List AttemptSummary
  pub decisions : List PolicyDecisionRecord
  pub target_counts : ℤ → ℕ
  pub current : Option Handle
  pub finished : Time
  pub result : Option RunResult
  pub wait_err : Option SdkError

-- The record that PolicyRunner.StartRun makes; `counter` is what policyRunCounter counted to.
unfoldable pub new_run : Handle → List FallbackAlternative → ℕ → Time → RunRequest → PolicyRun
new_run primary alternatives counter started req = record {
  id = str_append "policy-" (decimal counter);
  original = req;
  primary = primary;
  alternatives = alternatives;
  started = started;
  stream = record { seq = 0; sent = []; dropped = [] };
  attempts = [];
  decisions = [];
  target_counts = λ i. 0;
  current = none;
  finished = 0;
  result = none;
  wait_err = none;
}

-- PolicyRunner.StartRun, up to the goroutine that it starts: a runner with no runtime is refused.
pub data StartResult : Type 0 where
  rejected : SdkError → StartResult
  accepted : PolicyRun → StartResult

unfoldable pub start_run :
    Option Handle → List FallbackAlternative → ℕ → Time → RunRequest → StartResult
unfolding new_run
start_run none alternatives counter started req =
    StartResult.rejected
      (new_error ErrorCategory.configuration "policy runner" "primary runtime is required" none [])
start_run (some primary) alternatives counter started req =
    StartResult.accepted (new_run primary alternatives counter started req)

-- policyRun.Cancel, after it has cancelled the context: the run to which it passes the call on.
pub cancelled_run : PolicyRun → Option Handle
cancelled_run r = r.current
