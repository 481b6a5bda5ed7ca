-- ===== src/Observe/Run/Record.antt =====
-- What observedRun (observability.go) makes of requests and events for its record.
pub mod Counts
use agentwrap.Prelude.{
  ℕ, suc, pos, ◌+◌, is_positive, Time, is_zero_time, String, Bool, true, false, ◌&&◌, ◌||◌, not,
  is_nil, is_none, Option, none, some, or_default, List, [], ◌∷◌, ◌++◌, length, is_empty,
  str_append, str_eq, decimal, Duration, find, insert, if◌then◌else◌,
}
use agentwrap.Errors.{
  ErrorCategory, PlainError, plain_text, error_text, SdkError, GoError, plain, sdk, wrapping,
  new_error, StringMap,
}
use agentwrap.Dynamic.{Any, text, named, AnyMap, value_at}
use agentwrap.Events.Envelope.{Event, RawPayload, kind}
use agentwrap.Contract.{
  RunStatus, RunRequest, Usage, ArtifactRef, RuntimeContext, is_default_action,
}
use agentwrap.Observe.Records.{RunRecord, RunEventRecord, SinkFailure, EventSummary, clone_payload}
use agentwrap.Observe.Run.Artifacts.{with_producer_metadata}

pub record PersistencePolicy : Type 0 where
  pub persist_unsafe_raw_payloads : Bool
  pub omit_safe_raw_payloads : Bool
  pub run_upsert_interval : Duration

abbrev status_of_text : String → RunStatus
status_of_text s =
    if is_empty s
    then RunStatus.unset
    else if str_eq s "starting"
    then RunStatus.starting
    else if str_eq s "running"
    then RunStatus.running
    else if str_eq s "validating"
    then RunStatus.validating
    else if str_eq s "repairing"
    then RunStatus.repairing
    else if str_eq s "completed"
    then RunStatus.completed
    else if str_eq s "failed"
    then RunStatus.failed
    else if str_eq s "cancelled"
    then RunStatus.cancelled
    else RunStatus.other s

-- The switch of coerceStatus over the constants.
known_status : RunStatus → Option RunStatus
known_status RunStatus.unset = none
known_status (RunStatus.other s) = none
known_status status = some status

unfoldable pub coerce_status : Any → Option RunStatus
unfolding known_status
coerce_status (named t s) = if str_eq t "RunStatus" then some (status_of_text s) else none
coerce_status (text s) = known_status (status_of_text s)
coerce_status _ = none

-- A value read from a map that is nil is nil.
abbrev pub payload_value : String → Option AnyMap → Any
payload_value key none = Any.nil
payload_value key (some m) = value_at key m

or_else : Option RunStatus → Option RunStatus → Option RunStatus
or_else none other = other
or_else (some s) other = some s

unfoldable pub status_from_payload : Option AnyMap → Option RunStatus
unfolding or_else coerce_status
status_from_payload payload = or_else (coerce_status (payload_value "state" payload)) (
    or_else (coerce_status (payload_value "status" payload))
      (coerce_status (payload_value "to" payload)))

-- event.Raw: whether its bytes are kept, and the fields of the record that it sets.
unfoldable pub raw_kept : PersistencePolicy → RawPayload → Bool
raw_kept p raw =
    (raw.safe && not p.omit_safe_raw_payloads) || (not raw.safe && p.persist_unsafe_raw_payloads)

with_raw : PersistencePolicy → Option RawPayload → RunEventRecord → RunEventRecord
unfolding raw_kept
with_raw p none e = e
with_raw p (some raw) e = record e {
  raw_present = true;
  raw_safe = raw.safe;
  raw_source = raw.source;
  raw_encoding = raw.encoding;
  raw_data = if raw_kept p raw then raw.bytes else [];
  raw_omitted = not (raw_kept p raw);
  raw_omission_reason = if raw_kept p raw then "" else "raw payload omitted by persistence policy";
}

-- observedRun.eventRecord: `id` is the inner run's, `sequence` and `observed_at` what it counted and read.
unfoldable pub event_record : PersistencePolicy → String → ℕ → Time → Event → RunEventRecord
unfolding with_raw clone_payload kind
event_record p id sequence observed_at e = with_raw p e.raw (record {
  run_id = if is_empty e.run_id then id else e.run_id;
  event_id = e.id;
  sequence = sequence;
  time = e.time;
  kind = kind e;
  type = e.type;
  payload = clone_payload e.payload;
  raw_present = false;
  raw_safe = false;
  raw_omitted = false;
  raw_omission_reason = "";
  raw_source = "";
  raw_encoding = "";
  raw_data = [];
  observed_at = observed_at;
  stored_at = observed_at;
})

-- The parts of applyEventLocked.
with_status : Option RunStatus → RunRecord → RunRecord
with_status none r = r
with_status (some status) r = record r {
  status = status;
  latest_event = record r.latest_event { status = status };
}

abbrev pub is_unset : RunStatus → Bool
is_unset RunStatus.unset = true
is_unset _ = false

with_fatal : String → RunRecord → RunRecord
with_fatal kind r =
    if str_eq kind "fatal_error" && is_unset r.status
    then record r { status = RunStatus.failed }
    else r

with_usage : String → Option Usage → RunRecord → RunRecord
with_usage kind none r = r
with_usage kind (some usage) r = if str_eq kind "usage" then record r { usage = usage } else r

with_artifact : String → Option ArtifactRef → RunRecord → RunRecord
unfolding with_producer_metadata
with_artifact kind none r = r
with_artifact kind (some artifact) r =
    if str_eq kind "artifact"
    then record r { artifacts = r.artifacts ++ with_producer_metadata artifact r ∷ [] }
    else r

-- observedRun.applyEventLocked; the two type assertions on values of the payload are arguments.
unfoldable pub apply_event :
    (Any → Option Usage)
    → (Any → Option ArtifactRef)
    → Time
    → RunEventRecord
    → RunRecord
    → RunRecord
unfolding status_from_payload with_status with_fatal with_usage with_artifact
apply_event as_usage as_artifact now e r =
    with_artifact e.kind (as_artifact (payload_value "artifact" e.payload)) (
      with_usage e.kind (as_usage (payload_value "usage" e.payload)) (
        with_fatal e.kind (
          with_status (status_from_payload e.payload) (record r {
            observed_at = now;
            event_count = suc r.event_count;
            latest_event = record {
              event_id = e.event_id;
              time = if is_zero_time e.time then now else e.time;
              kind = e.kind;
              type = e.type;
              status = RunStatus.unset;
            };
          }))))

-- sdkErrorValue
unfoldable pub sdk_error_value : GoError → String → SdkError
unfolding new_error
sdk_error_value (plain err) operation =
    new_error ErrorCategory.unknown operation (plain_text err) (some err) []
sdk_error_value (sdk e) operation = e
sdk_error_value (wrapping s e) operation = e

-- err.Error()
abbrev pub go_error_text : GoError → String
unfolding error_text
go_error_text (plain err) = plain_text err
go_error_text (sdk e) = error_text (some e)
go_error_text (wrapping s e) = s

-- observedRun.recordFailure; `quote` is fmt's printing by %q.
unfoldable pub record_failure :
    (String → String) → Time → String → String → Bool → GoError → RunRecord → RunRecord
unfolding sdk_error_value
record_failure quote at operation name required err r =
    let failure : SinkFailure = record {
      name = name;
      required = required;
      operation = operation;
      at = at;
      error = sdk_error_value err operation;
    } in
    let warning =
      str_append operation
        (str_append " " (str_append (quote name) (str_append " failed: " (go_error_text err)))) in
    if str_eq operation "store_append_event" || str_eq operation "store_upsert_run"
    then record r {
      store_failures = r.store_failures ++ failure ∷ [];
      warnings = r.warnings ++ warning ∷ [];
    }
    else record r {
      sink_failures = r.sink_failures ++ failure ∷ [];
      warnings = r.warnings ++ warning ∷ [];
    }
