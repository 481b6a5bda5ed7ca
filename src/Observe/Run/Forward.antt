-- ===== src/Observe/Run/Forward.antt =====
-- ObservingRuntime.StartRun, and how observedRun forwards events and waits (observability.go).
pub mod Delivered
pub mod Waiting
use agentwrap.Prelude.{
  ℕ, suc, Time, String, Bool, true, false, ◌||◌, is_zero_time, Option, none, some, List, [], ◌∷◌,
  ◌++◌, str_eq, if◌then◌else◌,
}
use agentwrap.Errors.{ErrorCategory, GoError, sdk, new_error}
use agentwrap.Events.Envelope.{Event, kind}
use agentwrap.Contract.{Handle, RunRequest, RunResult}
use agentwrap.Policy.Runner.State.{Started, refused, running, Offer, context_done, accepted, full}
use agentwrap.Observe.Records.{RunRecord}
use agentwrap.Observe.Run.Record.{PersistencePolicy, event_record}
use agentwrap.Observe.Run.Merge.{merge_required_observer_error, merge_result}
use agentwrap.Observe.Run.State.{
  Environment, ObservedRun, NamedEventSink, new_record, upsert, append_record,
}

-- The events that a full channel may leave out.
unfoldable pub droppable : Event → Bool
droppable e = str_eq (kind e) "message" || str_eq (kind e) "progress"

-- The channel takes the event.
abbrev pub take_event : Event → ObservedRun → ObservedRun
take_event e r = record r { sent = r.sent ++ e ∷ [] }

-- recordDroppedEvent
abbrev pub record_dropped_event : ObservedRun → ObservedRun
record_dropped_event r = record r {
  run_record = record r.run_record { dropped_event_count = suc r.run_record.dropped_event_count };
}

delivered : Bool → Event → ObservedRun → Bool × ObservedRun
delivered true e r = (true, take_event e r)
delivered false e r = (false, r)

-- What StartRun answers.
pub data ObservedStart : Type 0 where
  not_started : GoError → ObservedStart
  observing : ObservedRun → ObservedStart

module _ {W : Type 0} (env : Environment W) where
  on_full : Bool → Event → ObservedRun → W → (Bool × ObservedRun) × W
  unfolding delivered
  on_full true e r w = ((true, record_dropped_event r), w)
  on_full false e r w = let (taken, w') = env.deliver e w in (delivered taken e r, w')

  -- The `select` of forward: whether it goes on.
  hand_on : Offer → Event → ObservedRun → W → (Bool × ObservedRun) × W
  unfolding on_full droppable
  hand_on context_done e r w = ((false, r), w)
  hand_on accepted e r w = ((true, take_event e r), w)
  hand_on full e r w = on_full (droppable e) e r w

  -- eventRecord, with what it counts and reads, and appendRecord.
  pub observe_event : Event → ObservedRun → W → ObservedRun × W
  unfolding event_record append_record
  observe_event e r w =
      let (observed_at, w1) = env.now w in
      append_record env (event_record r.policy r.id (suc r.seq) observed_at e)
        (record r { seq = suc r.seq }) w1

  -- observedRun.forward, on all that the inner run's channel yields until it is closed.
  unfoldable pub forward : List Event → ObservedRun → W → ObservedRun × W
  unfolding observe_event hand_on
  forward [] r w = (r, w)
  forward (e ∷ events) r w =
      let (r1, w1) = observe_event e r w in
      let (answer, w2) = env.offer e w1 in
      let (handed, w3) = hand_on answer e r1 w2 in
      let (go_on, r2) = handed in
      let rest = forward events r2 w3 in if go_on then rest else (r2, w3)

  -- The clock is read where the result has an end.
  end_time : Bool → W → Time × W
  end_time true w = (0, w)
  end_time false w = env.now w

  -- observedRun.Wait, after the forwarding has ended.
  unfoldable pub wait_run : ObservedRun → W → ((RunResult × Option GoError) × ObservedRun) × W
  unfolding merge_required_observer_error merge_result end_time
  wait_run r w =
      let (answer, w1) = env.wait r.inner w in
      let (result, err) = answer in
      let wait_err = merge_required_observer_error err r.run_record in
      let (now, w2) = end_time (is_zero_time result.finished_at) w1 in
      let merged = record r {
        result = some result;
        wait_err = wait_err;
        run_record = merge_result wait_err now result r.run_record;
      } in
      let (r', w3) = upsert env merged w2 in (((result, wait_err), r'), w3)

  -- observedRun: the goroutine of StartRun, and a Wait.
  unfoldable pub run_through : ObservedRun → W → ((RunResult × Option GoError) × ObservedRun) × W
  unfolding forward wait_run
  run_through r w =
      let (events, w1) = env.run_events r.inner w in
      let (r', w2) = forward events r w1 in wait_run r' w2

  started_with :
      Started
      → Option Handle
      → List NamedEventSink
      → PersistencePolicy
      → RunRequest
      → W
      → ObservedStart × W
  unfolding new_record upsert
  started_with (refused err) store sinks policy req w = (not_started err, w)
  started_with (running inner) store sinks policy req w =
      let (started, w1) = env.now w in
      let (observed, w2) = env.now w1 in
      let (r, w3) =
        upsert env
          (record {
            id = env.run_id inner;
            inner = inner;
            store = store;
            sinks = sinks;
            policy = policy;
            seq = 0;
            last_upsert = 0;
            sent = [];
            run_record = new_record env.show_duration (env.run_id inner) req started observed;
            result = none;
            wait_err = none;
          })
          w2 in
      (observing r, w3)

  -- ObservingRuntime.StartRun, up to the goroutine that it starts.
  unfoldable pub start_observed :
      Option Handle
      → Option Handle
      → List NamedEventSink
      → PersistencePolicy
      → RunRequest
      → W
      → ObservedStart × W
  unfolding started_with new_error
  start_observed none store sinks policy req w = (
    not_started (
        sdk
          (new_error ErrorCategory.configuration "observing runner" "runtime is required" none [])),
    w,
  )
  start_observed (some runtime) store sinks policy req w =
      let (answer, w') = env.start_inner runtime req w in
      started_with answer store sinks policy req w'
