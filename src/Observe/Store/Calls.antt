-- ===== src/Observe/Store/Calls.antt =====
-- Sequences of calls of a MemoryRunStore (observability.go).
use agentwrap.Prelude.{
  Time, String, Bool, true, false, ◌&&◌, ◌||◌, not, is_none, find, List, [], ◌∷◌, ◌++◌, str_eq,
  if◌then◌else◌,
}
use agentwrap.Contract.{terminal}
use agentwrap.Observe.Records.{RunEventRecord, RunRecord, clone_event_record}
use agentwrap.Observe.Store.{
  MemoryRunStore, append_event, upsert_run, get_completed_run, list_run_events,
}

-- A call with the instants at which it reads the clock.
pub data Call : Type 0 where
  upsert : RunRecord → Time → Time → Call
  append : RunEventRecord → Call
  get_completed : String → Time → Call
  list_events : String → Time → Call

unfoldable pub after_call : Call → MemoryRunStore → MemoryRunStore
unfolding append_event upsert_run get_completed_run list_run_events
after_call (upsert r stored_at now) s = upsert_run r stored_at now s
after_call (append event) s = append_event event s
after_call (get_completed id now) s = (get_completed_run id now s).1
after_call (list_events id now) s = (list_run_events id now s).1

unfoldable pub after_calls : List Call → MemoryRunStore → MemoryRunStore
unfolding after_call
after_calls [] s = s
after_calls (c ∷ cs) s = after_calls cs (after_call c s)

-- The events that a call appends under an identity.
unfoldable pub appended_by : String → Call → List RunEventRecord
unfolding clone_event_record
appended_by id (append event) = if str_eq event.run_id id then clone_event_record event ∷ [] else []
appended_by id _ = []

unfoldable pub appended : String → List Call → List RunEventRecord
unfolding appended_by
appended id [] = []
appended id (c ∷ cs) = appended_by id c ++ appended id cs

-- Whether a call reports that the run has ended.
unfoldable pub ends : String → Call → Bool
ends id (upsert r stored_at now) = terminal r.status && str_eq r.run_id id
ends id _ = false

-- Whether the store has a record of the run's end.
abbrev pub has : String → MemoryRunStore → Bool
has id s = not (is_none (find id s.completed))

-- Whether the run is evicted: its record was there, or is stored by the call, and is not after it.
unfoldable pub evicts : String → Call → MemoryRunStore → Bool
unfolding ends after_call
evicts id c s = (ends id c || has id s) && not (has id (after_call c s))

-- The events appended under an identity, without those before its last eviction.
unfoldable pub since_eviction :
    String → List Call → MemoryRunStore → List RunEventRecord → List RunEventRecord
unfolding evicts after_call appended_by
since_eviction id [] s since = since
since_eviction id (c ∷ cs) s since =
    since_eviction id cs (after_call c s) (if evicts id c s then [] else since ++ appended_by id c)

unfoldable pub never_ended : String → List Call → Bool
unfolding ends
never_ended id [] = true
never_ended id (c ∷ cs) = not (ends id c) && never_ended id cs
