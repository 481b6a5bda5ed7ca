-- ===== src/Observe/Store.antt =====
-- MemoryRunStore (observability.go). A call that takes the lock is one step. cloneRunRecord copies
-- values that nobody changes, so it is left out; a map that is nil reads as an empty one, which is
-- what initLocked makes of it.
pub mod Trim
pub mod Calls
pub mod History
pub mod Completed
use agentwrap.Prelude.{
  ℕ, zero, suc, ◌+◌, ◌-◌, ◌*◌, ◌^◌, ltb, ℤ, pos, negsuc, is_positive, pos_part, is_zero_int, Time,
  Duration, String, Bool, true, false, ◌||◌, is_none, not, Option, none, some, or_default, List, [],
  ◌∷◌, ◌++◌, map, length, Table, find, insert, remove, if◌then◌else◌,
}
use agentwrap.Contract.{terminal}
use agentwrap.Observe.Records.{RunEventRecord, RunRecord, clone_event_record}

pub record MemoryRunStoreLimits : Type 0 where
  pub max_events_per_run : ℤ
  pub max_raw_bytes_per_run : ℤ
  pub max_completed_runs : ℤ
  pub completed_run_ttl : Duration

-- `raw_bytes` counts bytes that are held in memory; what is taken off it was added before.
pub record MemoryRunStore : Type 0 where
  pub active : Table RunRecord
  pub completed : Table RunRecord
  pub events : Table (List RunEventRecord)
  pub limits : MemoryRunStoreLimits
  pub completed_order : List String
  pub completed_stored_at : Table Time
  pub raw_bytes : Table ℕ

abbrev pub default_memory_run_store_limits : MemoryRunStoreLimits
default_memory_run_store_limits = record {
  max_events_per_run = pos 2048;
  max_raw_bytes_per_run = pos (16 * 1024 * 1024);
  max_completed_runs = pos 128;
  completed_run_ttl = pos (24 * 3600 * 10 ^ 9);
}

abbrev pub or_limit : ℤ → ℤ → ℤ
or_limit limit default = if is_zero_int limit then default else limit

unfoldable pub with_defaults : MemoryRunStoreLimits → MemoryRunStoreLimits
with_defaults l =
    let d = default_memory_run_store_limits in
    record {
      max_events_per_run = or_limit l.max_events_per_run d.max_events_per_run;
      max_raw_bytes_per_run = or_limit l.max_raw_bytes_per_run d.max_raw_bytes_per_run;
      max_completed_runs = or_limit l.max_completed_runs d.max_completed_runs;
      completed_run_ttl = or_limit l.completed_run_ttl d.completed_run_ttl;
    }

-- NewMemoryRunStoreWithLimits
unfoldable pub new_store : MemoryRunStoreLimits → MemoryRunStore
unfolding with_defaults
new_store limits = record {
  active = [];
  completed = [];
  events = [];
  limits = with_defaults limits;
  completed_order = [];
  completed_stored_at = [];
  raw_bytes = [];
}

-- Whether a number is over a limit; a negative one does not count.
abbrev pub over : ℤ → ℕ → Bool
over (pos limit) n = ltb limit n
over (negsuc k) n = false

-- What the maps hold under a key, or Go's zero value.
abbrev pub events_of : String → MemoryRunStore → List RunEventRecord
events_of id s = or_default (find id s.events) []

abbrev pub bytes_of : String → MemoryRunStore → ℕ
bytes_of id s = or_default (find id s.raw_bytes) 0

abbrev pub stored_at_of : String → MemoryRunStore → Time
stored_at_of id s = or_default (find id s.completed_stored_at) 0

-- eventLimitExceededLocked
unfoldable pub event_limit_exceeded : MemoryRunStoreLimits → List RunEventRecord → ℕ → Bool
event_limit_exceeded l events bytes =
    over l.max_events_per_run (length events) || over l.max_raw_bytes_per_run bytes

-- The loop of AppendEvent, on the events and the number of bytes of the run.
unfoldable pub trim : MemoryRunStoreLimits → List RunEventRecord → ℕ → List RunEventRecord × ℕ
unfolding event_limit_exceeded
trim l [] bytes = ([], bytes)
trim l (dropped ∷ events) bytes =
    let rest = trim l events (bytes - length dropped.raw_data) in
    if event_limit_exceeded l (dropped ∷ events) bytes then rest else (dropped ∷ events, bytes)

unfoldable pub append_event : RunEventRecord → MemoryRunStore → MemoryRunStore
unfolding trim clone_event_record
append_event event s =
    let stored = clone_event_record event in
    let (events, bytes) =
      trim s.limits (events_of event.run_id s ++ stored ∷ [])
        (bytes_of event.run_id s + length stored.raw_data) in
    record s {
      events = insert event.run_id events s.events;
      raw_bytes = insert event.run_id bytes s.raw_bytes;
    }

-- evictCompletedRunLocked
unfoldable pub evict_completed_run : String → MemoryRunStore → MemoryRunStore
evict_completed_run id s = record s {
  completed = remove id s.completed;
  events = remove id s.events;
  completed_stored_at = remove id s.completed_stored_at;
  raw_bytes = remove id s.raw_bytes;
}

-- stored.Before(now.Add(-ttl))
abbrev pub expired : Time → ℕ → Time → Bool
expired now ttl stored = ltb (stored + ttl) now

-- The two loops of evictCompletedLocked, over what is left of the order.
unfoldable pub expire : Time → ℕ → List String → MemoryRunStore → MemoryRunStore
unfolding evict_completed_run
expire now ttl [] s = record s { completed_order = [] }
expire now ttl (id ∷ ids) s =
    let rest = expire now ttl ids (evict_completed_run id s) in
    if expired now ttl (stored_at_of id s) then rest else record s { completed_order = id ∷ ids }

unfoldable pub shrink : ℤ → List String → MemoryRunStore → MemoryRunStore
unfolding evict_completed_run
shrink limit [] s = record s { completed_order = [] }
shrink limit (id ∷ ids) s =
    let rest = shrink limit ids (evict_completed_run id s) in
    if over limit (length (id ∷ ids)) then rest else record s { completed_order = id ∷ ids }

unfoldable pub expire_old : Time → MemoryRunStore → MemoryRunStore
unfolding expire
expire_old now s =
    if is_positive s.limits.completed_run_ttl
    then expire now (pos_part s.limits.completed_run_ttl) s.completed_order s
    else s

unfoldable pub evict_completed : Time → MemoryRunStore → MemoryRunStore
unfolding expire_old shrink
evict_completed now s =
    let left = expire_old now s in shrink left.limits.max_completed_runs left.completed_order left

-- The order of the completed runs, with the one that is stored now.
unfoldable pub ordered : Option RunRecord → String → List String → List String
ordered none id order = order ++ id ∷ []
ordered (some r) id order = order

-- What UpsertRun does before it evicts, to a run that has ended.
unfoldable pub complete : RunRecord → Time → MemoryRunStore → MemoryRunStore
unfolding ordered
complete r stored_at s = record s {
  active = remove r.run_id s.active;
  completed_order = ordered (find r.run_id s.completed) r.run_id s.completed_order;
  completed_stored_at = insert r.run_id stored_at s.completed_stored_at;
  completed = insert r.run_id r s.completed;
}

-- UpsertRun, with the instants at which it stores and evicts.
unfoldable pub upsert_run : RunRecord → Time → Time → MemoryRunStore → MemoryRunStore
unfolding complete evict_completed
upsert_run r stored_at now s =
    if terminal r.status
    then evict_completed now (complete r stored_at s)
    else record s { active = insert r.run_id r s.active }

abbrev pub second : String × RunRecord → RunRecord
second (k, r) = r

-- ListActiveRuns; Go gives them in any order.
unfoldable pub list_active_runs : MemoryRunStore → List RunRecord
list_active_runs s = map second s.active

unfoldable pub get_completed_run :
    String → Time → MemoryRunStore → Option RunRecord × MemoryRunStore
unfolding evict_completed
get_completed_run id now s = let s' = evict_completed now s in (find id s'.completed, s')

unfoldable pub list_run_events :
    String → Time → MemoryRunStore → List RunEventRecord × MemoryRunStore
unfolding evict_completed clone_event_record
list_run_events id now s =
    let s' = evict_completed now s in (map clone_event_record (events_of id s'), s')
