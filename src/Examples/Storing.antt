-- ===== src/Examples/Storing.antt =====
-- A store in memory with room for two events of a run and for one completed run.
use agentwrap.Prelude.{
  ℕ, pos, ◌≡◌, refl, arith, true, false, none, some, List, [], ◌∷◌, map, find, insert, String,
}
use agentwrap.Contract.{
  RunStatus, terminal, zero_context, zero_session, zero_permissions, zero_policy, zero_usage,
  zero_native, zero_metadata,
}
use agentwrap.Observe.Records.{RunEventRecord, RunRecord}
use agentwrap.Observe.Store.{
  MemoryRunStoreLimits, new_store, with_defaults, upsert_run, get_completed_run, list_run_events,
}
use agentwrap.Observe.Store.Calls.{Call, upsert, append, after_calls}
use agentwrap.Observe.Store.History.Recall.{Recalled, then_listed, list_run_events-Recalled}
use agentwrap.Observe.Store.Completed.{Consistent}
use agentwrap.Observe.Store.Completed.Kept.{after_calls-Consistent, get_completed_run-upsert_run}

abbrev few : MemoryRunStoreLimits
few = record {
  max_events_per_run = pos 2;
  max_raw_bytes_per_run = pos 3;
  max_completed_runs = pos 1;
  completed_run_ttl = pos 50;
}

abbrev event_numbered : ℕ → List ℕ → RunEventRecord
event_numbered n bytes = record {
  run_id = "a";
  event_id = "";
  sequence = n;
  time = 1;
  kind = "message";
  type = "text";
  payload = none;
  raw_present = true;
  raw_safe = true;
  raw_omitted = false;
  raw_omission_reason = "";
  raw_source = "";
  raw_encoding = "";
  raw_data = bytes;
  observed_at = 1;
  stored_at = 1;
}

abbrev finished : String → RunRecord
finished id = record {
  run_id = id;
  parent_run_id = "";
  session_id = "";
  turn_id = "";
  status = RunStatus.completed;
  context = zero_context;
  effective_config_summary = none;
  started_at = 1;
  finished_at = 2;
  duration = pos 1;
  observed_at = 2;
  completed_at = 2;
  latest_event = record { event_id = ""; time = 0; kind = ""; type = ""; status = RunStatus.unset };
  event_count = 0;
  dropped_event_count = 0;
  sink_failures = [];
  store_failures = [];
  attempts = [];
  policy = zero_policy;
  session = zero_session;
  permissions = zero_permissions;
  cleanup = zero_metadata.cleanup;
  validation = zero_metadata.validation;
  repair = zero_metadata.repair;
  artifacts = [];
  warnings = [];
  errors = [];
  usage = zero_usage;
  estimated_cost = none;
  cost_source = "";
  throughput_tps = none;
  native_metadata = zero_native;
}

abbrev busy : List Call
busy =
    append (event_numbered 1 (7 ∷ []))
    ∷ append (event_numbered 2 (7 ∷ 7 ∷ []))
    ∷ append (event_numbered 3 (7 ∷ 7 ∷ []))
    ∷ upsert (finished "b") 10 10
    ∷ []

abbrev number_of : RunEventRecord → ℕ
number_of e = e.sequence

-- The bytes of the last two events are too many.
busy_events : map number_of (list_run_events "a" 10 (after_calls busy (new_store few))).0 ≡ 3 ∷ []
unfolding after_calls new_store list_run_events find insert terminal
busy_events = refl

list_run_events-Recalled_example :
    Recalled few
      (then_listed busy "a" 10)
      "a"
      (list_run_events "a" 10 (after_calls busy (new_store few))).0
list_run_events-Recalled_example = list_run_events-Recalled few busy "a" 10

after_calls-Consistent_example : Consistent (after_calls busy (new_store few))
after_calls-Consistent_example = after_calls-Consistent few busy

get_completed_run-upsert_run_example :
    (get_completed_run "c" 70
      (upsert_run (finished "c") 20 21 (after_calls busy (new_store few)))).0
    ≡ some (finished "c")
unfolding with_defaults terminal
get_completed_run-upsert_run_example =
    get_completed_run-upsert_run few busy (finished "c") 20 21 70 refl (λ p. omega arith)
      (λ p. omega arith)

-- A run that is stored again keeps its place in the order, so a run behind it outlives the TTL.
abbrev refreshed : List Call
refreshed =
    upsert (finished "a") 10 10 ∷ upsert (finished "b") 11 11 ∷ upsert (finished "a") 60 60 ∷ []

expired_run_kept :
    (get_completed_run "b" 100
      (after_calls refreshed (new_store (record few { max_completed_runs = pos 5 })))).0
    ≡ some (finished "b")
unfolding after_calls new_store get_completed_run find insert terminal
expired_run_kept = refl
