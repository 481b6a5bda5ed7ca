-- ===== src/Contract/Result.antt =====
-- RunResult of runtime.go with RunMetadata of metadata.go, and RateLimitInfo of policy.go.
use agentwrap.Prelude.{ℕ, ℤ, Time, Duration, String, Bool, Option, List}
use agentwrap.Errors.{SdkError, ErrorCategory}
use agentwrap.Dynamic.{Any, AnyMap}
use agentwrap.Permissions.Types.{PermissionMetadata}
use agentwrap.Contract.Session.{
  RunStatus, RuntimeContext, SessionMetadata, ArtifactRef, Usage, FloatBits, CostEstimate,
  CleanupMetadata, PromptCacheMetadata,
}
use agentwrap.Contract.Checks.{ValidationResult}
use agentwrap.Contract.Request.{AttemptRequest}

pub record RateLimitInfo : Type 0 where
  pub provider : String
  pub model : String
  pub scope : String
  pub limit_name : String
  pub retry_after : Duration
  pub reset_at : Time
  pub remaining : Option ℤ
  pub limit : Option ℤ
  pub source : String
  pub user_detail : String
  pub native_metadata : AnyMap

-- What `NativeMetadata["rate_limit_info"]` holds: nothing, a `*RateLimitInfo` that is nil or not, a
-- `RateLimitInfo`, or a value of another type.
pub data RateLimitEntry : Type 0 where
  absent nil_pointer : RateLimitEntry
  pointer value : RateLimitInfo → RateLimitEntry
  other : Any → RateLimitEntry

-- A native metadata map: its entry under "rate_limit_info", and the entries under other keys.
pub record NativeMetadata : Type 0 where
  pub rate_limit_info : RateLimitEntry
  pub rest : AnyMap

pub data PolicyDecisionKind : Type 0 where
  unset stop retry wait fallback : PolicyDecisionKind
  other : String → PolicyDecisionKind

pub record AttemptSummary : Type 0 where
  pub attempt : ℕ
  pub attempt_on_target : ℕ
  pub target_index : ℤ
  pub run_id : String
  pub parent_run_id : String
  pub context : RuntimeContext
  pub request : AttemptRequest
  pub status : RunStatus
  pub started_at : Time
  pub finished_at : Time
  pub duration : Duration
  pub session : SessionMetadata
  pub error_category : ErrorCategory
  pub error : Option SdkError
  pub rate_limit : Option RateLimitInfo
  pub policy_decision_reason : String
  pub native_metadata : NativeMetadata

pub record PolicyDecisionRecord : Type 0 where
  pub attempt : ℕ
  pub target_index : ℤ
  pub kind : PolicyDecisionKind
  pub reason : String
  pub detail : String
  pub delay : Duration
  pub context : RuntimeContext
  pub rate_limit : Option RateLimitInfo
  pub metadata : AnyMap

-- `kind` is an EventKind, which is an open text.
pub record PolicyDroppedEvent : Type 0 where
  pub kind : String
  pub type : String
  pub run_id : String
  pub at : Time

pub record PolicyMetadata : Type 0 where
  pub logical_run_id : String
  pub final_attempt : ℕ
  pub final_target_index : ℤ
  pub exhausted : Bool
  pub exhausted_reason : String
  pub decisions : List PolicyDecisionRecord
  pub dropped_events : List PolicyDroppedEvent

pub record ValidationMetadata : Type 0 where
  pub configured : Bool
  pub final : ValidationResult
  pub history : List ValidationResult

pub record RepairAttemptSummary : Type 0 where
  pub attempt : ℕ
  pub run_id : String
  pub parent_run_id : String
  pub request : AttemptRequest
  pub status : RunStatus
  pub started_at : Time
  pub finished_at : Time
  pub duration : Duration
  pub session : SessionMetadata
  pub permissions : PermissionMetadata
  pub validation : ValidationResult
  pub error_category : ErrorCategory
  pub error : Option SdkError
  pub unsupported_session : Bool
  pub permission_policy_id : String
  pub policy_decision_reason : String

pub record RepairMetadata : Type 0 where
  pub configured : Bool
  pub attempted : Bool
  pub max_attempts : ℤ
  pub attempts : List RepairAttemptSummary
  pub exhausted : Bool
  pub exhausted_reason : String
  pub permission_policy_id : String
  pub permission_denied : Bool
  pub unsupported_same_session : Bool

pub record RunMetadata : Type 0 where
  pub context : RuntimeContext
  pub parent_run_id : String
  pub attempt : ℕ
  pub attempts : List AttemptSummary
  pub policy : PolicyMetadata
  pub status : RunStatus
  pub started_at : Time
  pub finished_at : Time
  pub duration : Duration
  pub session : SessionMetadata
  pub permissions : PermissionMetadata
  pub cleanup : CleanupMetadata
  pub validation : ValidationMetadata
  pub repair : RepairMetadata
  pub prompt_cache : PromptCacheMetadata
  pub artifacts : List ArtifactRef
  pub warnings : List String
  pub errors : List SdkError
  pub usage : Usage
  pub estimated_cost : Option CostEstimate
  pub cost_source : String
  pub throughput_tps : Option FloatBits
  pub native_metadata : NativeMetadata

pub record RunResult : Type 0 where
  pub run_id : String
  pub session_id : String
  pub turn_id : String
  pub status : RunStatus
  pub terminal_output : String
  pub metadata : RunMetadata
  pub artifacts : List ArtifactRef
  pub warnings : List String
  pub usage : Usage
  pub started_at : Time
  pub finished_at : Time
  pub err : Option SdkError
