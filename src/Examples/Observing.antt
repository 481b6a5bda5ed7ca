-- ===== src/Examples/Observing.antt =====
-- An observed run with a required sink that fails and a channel that takes one event.
use agentwrap.Prelude.{
  ℕ, suc, leb, pos, ◌≡◌, ◌↔◌, refl, true, false, none, some, [], ◌∷◌, sub_time, if◌then◌else◌,
}
use agentwrap.Errors.{GoError, message, plain}
use agentwrap.Dynamic.{lookup, no_fields, field, named}
use agentwrap.Events.Envelope.{Event}
use agentwrap.Contract.{RunStatus, terminal, ArtifactRef, RunResult, zero_request, zero_result}
use agentwrap.Policy.Runner.State.{Started, Offer}
use agentwrap.Observe.Records.{RunRecord}
use agentwrap.Observe.Run.Merge.{merge_result}
use agentwrap.Observe.Run.Merge.Ends.{NoneRequired, merge_result-reported}
use agentwrap.Observe.Run.State.{Environment, ObservedRun, new_record}
use agentwrap.Observe.Run.Forward.{forward, wait_run}
use agentwrap.Observe.Run.Forward.Waiting.{wait_run_exact}
use agentwrap.Observe.Run.Forward.Delivered.{Forwarded, forward-Forwarded}

abbrev disk_full : GoError
disk_full = plain (message 1 "disk full")

-- The world counts the events that were offered.
abbrev crowded : Environment ℕ
crowded = record {
  now = λ w. (5, w);
  start_inner = λ h r w. (Started.running h, w);
  run_id = λ h. "inner";
  run_events = λ h w. ([], w);
  wait = λ h w. ((zero_result, none), w);
  sink_append = λ h e w. (some disk_full, w);
  store_append = λ h e w. (none, w);
  store_upsert = λ h r w. (none, w);
  offer = λ e w. (if leb w 0 then Offer.accepted else Offer.full, suc w);
  deliver = λ e w. (true, w);
  as_usage = λ v. none;
  as_artifact = λ v. none;
  quote = λ s. s;
  show_duration = λ d. "0s";
}

abbrev fresh_record : RunRecord
fresh_record = new_record (λ d. "0s") "inner" zero_request 1 1

abbrev fresh : ObservedRun
fresh = record {
  id = "inner";
  inner = 3;
  store = some 4;
  sinks = record { name = "audit"; sink = some 9; required = true } ∷ [];
  policy = record {
    persist_unsafe_raw_payloads = false;
    omit_safe_raw_payloads = false;
    run_upsert_interval = pos 0;
  };
  seq = 0;
  last_upsert = 0;
  sent = [];
  run_record = fresh_record;
  result = none;
  wait_err = none;
}

abbrev chatter : Event
chatter = record {
  id = "e";
  run_id = "inner";
  session_id = "";
  time = 1;
  type = "text";
  payload = some (field "event_kind" (named "EventKind" "message") no_fields);
  raw = none;
}

dropped_one :
    (forward crowded (chatter ∷ chatter ∷ []) fresh 0).0.run_record.dropped_event_count ≡ 1
unfolding forward new_record sub_time lookup
dropped_one = refl

forward-Forwarded_example :
    Forwarded crowded
      (chatter ∷ chatter ∷ [])
      fresh
      0
      (forward crowded (chatter ∷ chatter ∷ []) fresh 0).0
forward-Forwarded_example = forward-Forwarded crowded (chatter ∷ chatter ∷ []) fresh 0

abbrev draft : ArtifactRef
draft = record { id = "report"; uri = "a"; kind = ""; description = ""; metadata = none }

abbrev given_up : RunResult
given_up = record zero_result { status = RunStatus.cancelled }

merge_result-reported_example :
    (merge_result none 10 given_up fresh_record).status ≡ RunStatus.cancelled
unfolding terminal
merge_result-reported_example = merge_result-reported none 10 given_up fresh_record refl

-- The run after the sink has failed.
abbrev noted : ObservedRun
noted = (forward crowded (chatter ∷ []) fresh 0).0

wait_run_exact_example : (wait_run crowded noted 0).0.0.1 ≡ none ↔ (
    ((crowded.wait noted.inner 0).0.1 ≡ none)
    × NoneRequired noted.run_record.sink_failures
    × NoneRequired noted.run_record.store_failures)
wait_run_exact_example = wait_run_exact crowded noted 0
