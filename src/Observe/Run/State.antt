-- ===== src/Observe/Run/State.antt =====
-- The state of an observed run (observability.go), and what it takes from outside.
pub mod Counts
use agentwrap.Prelude.{
  ℕ, suc, pos, negsuc, ◌*◌, ◌^◌, ltb_ℤ, is_positive, Time, is_zero_time, sub_time, Duration, String,
  Bool, true, false, ◌&&◌, not, Option, none, some, List, [], ◌∷◌, ◌++◌, if◌then◌else◌,
}
use agentwrap.Errors.{GoError}
use agentwrap.Dynamic.{Any}
use agentwrap.Events.Envelope.{Event}
use agentwrap.Contract.{
  Handle, RunStatus, RunRequest, RunResult, Usage, ArtifactRef, RuntimeContext, zero_context,
  zero_session, zero_permissions, zero_policy, zero_usage, zero_native, zero_metadata,
}
use agentwrap.Policy.Runner.State.{Started, Offer}
use agentwrap.Observe.Records.{RunRecord, RunEventRecord, EventSummary}
use agentwrap.Observe.Run.Record.{PersistencePolicy, record_failure, apply_event}
use agentwrap.Observe.Run.Merge.{req_parent_run_id, effective_config_summary}

-- A sink that is nil is `none`.
pub record NamedEventSink : Type 0 where
  pub name : String
  pub sink : Option Handle
  pub required : Bool

-- What a run asks of the world `W`: the clock, the wrapped runtime and its runs, the sinks, the store, and the reader
-- of its channel. `offer` is the `select` with a default; `deliver` is the one that waits, which
-- answers that the context has ended or that the event was taken. Two type assertions on payload
-- values and two prints of package fmt need no world.
pub record Environment (W : Type 0) : Type 0 where
  pub now : W → Time × W
  pub start_inner : Handle → RunRequest → W → Started × W
  pub run_id : Handle → String
  pub run_events : Handle → W → List Event × W
  pub wait : Handle → W → (RunResult × Option GoError) × W
  pub sink_append : Handle → RunEventRecord → W → Option GoError × W
  pub store_append : Handle → RunEventRecord → W → Option GoError × W
  pub store_upsert : Handle → RunRecord → W → Option GoError × W
  pub offer : Event → W → Offer × W
  pub deliver : Event → W → Bool × W
  pub as_usage : Any → Option Usage
  pub as_artifact : Any → Option ArtifactRef
  pub quote : String → String
  pub show_duration : Duration → String

-- `sent` are the events that the channel took; `run_record` is the field `record`.
pub record ObservedRun : Type 0 where
  pub id : String
  pub inner : Handle
  pub store : Option Handle
  pub sinks : List NamedEventSink
  pub policy : PersistencePolicy
  pub seq : ℕ
  pub last_upsert : Time
  pub sent : List Event
  pub run_record : RunRecord
  pub result : Option RunResult
  pub wait_err : Option GoError

-- The record that ObservingRuntime.StartRun makes.
unfoldable pub new_record : (Duration → String) → String → RunRequest → Time → Time → RunRecord
unfolding req_parent_run_id effective_config_summary
new_record show_duration id req started observed = record {
  run_id = id;
  parent_run_id = req_parent_run_id req;
  session_id = req.session_id;
  turn_id = req.turn_id;
  status = RunStatus.starting;
  context = record zero_context { provider = req.provider; model = req.model };
  effective_config_summary = effective_config_summary show_duration req;
  started_at = started;
  finished_at = 0;
  duration = pos 0;
  observed_at = observed;
  completed_at = 0;
  latest_event = record { event_id = ""; time = 0; kind = ""; type = ""; status = RunStatus.unset };
  event_count = 0;
  dropped_event_count = 0;
  sink_failures = [];
  store_failures = [];
  attempts = [];
  policy = zero_policy;
  session = zero_session;
  permissions = zero_permissions;
  cleanup = zero_metadata.cleanup;
  validation = zero_metadata.validation;
  repair = zero_metadata.repair;
  artifacts = [];
  warnings = [];
  errors = [];
  usage = zero_usage;
  estimated_cost = none;
  cost_source = "";
  throughput_tps = none;
  native_metadata = zero_native;
}

abbrev default_interval : Duration
default_interval = pos (250 * 10 ^ 6)

module _ {W : Type 0} (env : Environment W) where
  -- recordFailure of an error that is not nil; without one nothing happens.
  unfoldable pub note_failure :
      String → String → Bool → Option GoError → ObservedRun → W → ObservedRun × W
  unfolding record_failure
  note_failure operation name required none r w = (r, w)
  note_failure operation name required (some err) r w =
      let (at, w') = env.now w in
      (
        record r {
          run_record = record_failure env.quote at operation name required err r.run_record;
        },
        w',
      )

  upsert_to : Option Handle → ObservedRun → W → ObservedRun × W
  unfolding note_failure
  upsert_to none r w = (r, w)
  upsert_to (some store) r w =
      let (err, w') = env.store_upsert store r.run_record w in
      note_failure "store_upsert_run" "store" false err r w'

  -- observedRun.upsert
  unfoldable pub upsert : ObservedRun → W → ObservedRun × W
  unfolding upsert_to
  upsert r w = upsert_to r.store r w

  abbrev interval_of : PersistencePolicy → Duration
  interval_of p =
      if is_positive p.run_upsert_interval then p.run_upsert_interval else default_interval

  upsert_unless : Bool → Time → ObservedRun → W → ObservedRun × W
  unfolding upsert
  upsert_unless true now r w = (r, w)
  upsert_unless false now r w = upsert (record r { last_upsert = now }) w

  -- observedRun.upsertIfDue
  unfoldable pub upsert_if_due : ObservedRun → W → ObservedRun × W
  unfolding upsert_unless
  upsert_if_due r w =
      let (now, w') = env.now w in
      upsert_unless
        (not (is_zero_time r.last_upsert)
          && ltb_ℤ (sub_time now r.last_upsert) (interval_of r.policy))
        now r w'

  to_sink : Option Handle → NamedEventSink → RunEventRecord → ObservedRun → W → ObservedRun × W
  unfolding note_failure
  to_sink none s e r w = (r, w)
  to_sink (some sink) s e r w =
      let (err, w') = env.sink_append sink e w in
      note_failure "event_sink" s.name s.required err r w'

  -- The loop of appendRecord over the sinks.
  unfoldable pub to_sinks : List NamedEventSink → RunEventRecord → ObservedRun → W → ObservedRun × W
  unfolding to_sink
  to_sinks [] e r w = (r, w)
  to_sinks (s ∷ sinks) e r w = let (r', w') = to_sink s.sink s e r w in to_sinks sinks e r' w'

  to_store : Option Handle → RunEventRecord → ObservedRun → W → ObservedRun × W
  unfolding note_failure
  to_store none e r w = (r, w)
  to_store (some store) e r w =
      let (err, w') = env.store_append store e w in
      note_failure "store_append_event" "store" false err r w'

  -- observedRun.appendRecord
  unfoldable pub append_record : RunEventRecord → ObservedRun → W → ObservedRun × W
  unfolding apply_event to_sinks to_store upsert_if_due
  append_record e r w =
      let (now, w1) = env.now w in
      let applied = record r {
        run_record = apply_event env.as_usage env.as_artifact now e r.run_record;
      } in
      let (r2, w2) = to_sinks r.sinks e applied w1 in
      let (r3, w3) = to_store r.store e r2 w2 in upsert_if_due r3 w3
