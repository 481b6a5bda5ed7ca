-- ===== src/Contract/Request.antt =====
-- RunRequest of runtime.go, and what an attempt records of it.
use agentwrap.Prelude.{Duration, String, Bool, Option, List}
use agentwrap.Errors.{StringMap}
use agentwrap.Permissions.Types.{PermissionPolicy}
use agentwrap.Contract.Session.{SessionAction, PromptCacheDirective}
use agentwrap.Contract.Checks.{ValidationSpec}

-- A slice that is nil is `none`.
pub record RunRequest : Type 0 where
  pub prompt : String
  pub work_dir : String
  pub session_id : String
  pub turn_id : String
  pub provider : String
  pub model : String
  pub permissions : String
  pub permission_policy : Option PermissionPolicy
  pub sandbox : String
  pub timeout : Duration
  pub metadata : StringMap
  pub want_session : Bool
  pub session_action : SessionAction
  pub require_caps : Option (List String)
  pub require_health : Option (List String)
  pub validation : Option ValidationSpec
  pub prompt_cache : PromptCacheDirective

-- `append([]T(nil), s...)` and `sortedKeys` turn an empty slice and nil alike into nil, which no
-- reader tells from the empty list.
pub record AttemptRequest : Type 0 where
  pub work_dir : String
  pub session_id : String
  pub provider : String
  pub model : String
  pub permissions : String
  pub sandbox : String
  pub timeout : Duration
  pub want_session : Bool
  pub session_action : SessionAction
  pub require_caps : List String
  pub require_health : List String
  pub metadata_keys : List String
  pub prompt_cache : Bool
