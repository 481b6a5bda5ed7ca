-- ===== src/Observe/Records.antt =====
-- The records of observability.go.
use agentwrap.Prelude.{ℕ, Time, Duration, String, Bool, Option, none, some, List}
use agentwrap.Errors.{SdkError, StringMap}
use agentwrap.Dynamic.{AnyMap, no_fields, field}
use agentwrap.Permissions.Types.{PermissionMetadata}
use agentwrap.Contract.{
  RunStatus, RuntimeContext, SessionMetadata, ArtifactRef, Usage, FloatBits, CostEstimate,
  CleanupMetadata, AttemptSummary, PolicyMetadata, ValidationMetadata, RepairMetadata,
  NativeMetadata,
}

-- `kind` is an EventKind, which is an open text.
pub record EventSummary : Type 0 where
  pub event_id : String
  pub time : Time
  pub kind : String
  pub type : String
  pub status : RunStatus

-- A payload that is nil is `none`.
pub record RunEventRecord : Type 0 where
  pub run_id : String
  pub event_id : String
  pub sequence : ℕ
  pub time : Time
  pub kind : String
  pub type : String
  pub payload : Option AnyMap
  pub raw_present : Bool
  pub raw_safe : Bool
  pub raw_omitted : Bool
  pub raw_omission_reason : String
  pub raw_source : String
  pub raw_encoding : String
  pub raw_data : List ℕ
  pub observed_at : Time
  pub stored_at : Time

pub record SinkFailure : Type 0 where
  pub name : String
  pub required : Bool
  pub operation : String
  pub at : Time
  pub error : SdkError

pub record RunRecord : Type 0 where
  pub run_id : String
  pub parent_run_id : String
  pub session_id : String
  pub turn_id : String
  pub status : RunStatus
  pub context : RuntimeContext
  pub effective_config_summary : StringMap
  pub started_at : Time
  pub finished_at : Time
  pub duration : Duration
  pub observed_at : Time
  pub completed_at : Time
  pub latest_event : EventSummary
  pub event_count : ℕ
  pub dropped_event_count : ℕ
  pub sink_failures : List SinkFailure
  pub store_failures : List SinkFailure
  pub attempts : List AttemptSummary
  pub policy : PolicyMetadata
  pub session : SessionMetadata
  pub permissions : PermissionMetadata
  pub cleanup : CleanupMetadata
  pub validation : ValidationMetadata
  pub repair : RepairMetadata
  pub artifacts : List ArtifactRef
  pub warnings : List String
  pub errors : List SdkError
  pub usage : Usage
  pub estimated_cost : Option CostEstimate
  pub cost_source : String
  pub throughput_tps : Option FloatBits
  pub native_metadata : NativeMetadata

-- clonePayload. A copy of a value that nobody changes is the value; an empty map becomes nil.
unfoldable pub clone_payload : Option AnyMap → Option AnyMap
clone_payload none = none
clone_payload (some no_fields) = none
clone_payload (some (field k v m)) = some (field k v m)

-- cloneEventRecord
unfoldable pub clone_event_record : RunEventRecord → RunEventRecord
unfolding clone_payload
clone_event_record e = record e { payload = clone_payload e.payload }
