-- ===== src/Contract/Session.antt =====
-- The small types of metadata.go, runtime.go, lifecycle.go and cache.go.
use agentwrap.Prelude.{
  ℕ, ℤ, String, Bool, true, false, Option, List, ◌||◌, is_empty, is_zero_int, not,
}
use agentwrap.Errors.{StringMap, SdkError}
use agentwrap.Dynamic.{AnyMap}

-- An interface or function value by its identity; nil is `none` of an `Option`.
abbrev pub Handle : Type 0
Handle = ℕ

-- `unset` is the empty text, `other` any text that is none of the constants.
pub data RunStatus : Type 0 where
  unset starting running validating repairing completed failed cancelled : RunStatus
  other : String → RunStatus

-- RunStatus.Terminal
unfoldable pub terminal : RunStatus → Bool
terminal RunStatus.completed = true
terminal RunStatus.failed = true
terminal RunStatus.cancelled = true
terminal _ = false

-- `default` is the empty text.
pub data SessionAction : Type 0 where
  default fresh continue fork replace release : SessionAction
  other : String → SessionAction

-- action != ""
abbrev pub is_default_action : SessionAction → Bool
is_default_action SessionAction.default = true
is_default_action _ = false

pub data SessionRelationship : Type 0 where
  none fresh same forked replaced released unsupported best_effort : SessionRelationship
  other : String → SessionRelationship

pub record RuntimeContext : Type 0 where
  pub runtime_kind : String
  pub runtime_name : String
  pub provider : String
  pub model : String

pub record UnsupportedCapability : Type 0 where
  pub capability : String
  pub reason : String

pub record SessionMetadata : Type 0 where
  pub id : String
  pub requested_id : String
  pub requested_action : SessionAction
  pub relationship : SessionRelationship
  pub retained : Bool
  pub continued : Bool
  pub forked_from : String
  pub replaced : String
  pub unsupported : List UnsupportedCapability
  pub unsupported_reason : String
  pub best_effort : Bool

pub record ArtifactRef : Type 0 where
  pub id : String
  pub uri : String
  pub kind : String
  pub description : String
  pub metadata : StringMap

pub record Usage : Type 0 where
  pub input_tokens : Option ℤ
  pub output_tokens : Option ℤ
  pub total_tokens : Option ℤ
  pub reasoning_tokens : Option ℤ
  pub cache_read_tokens : Option ℤ
  pub cache_write_tokens : Option ℤ
  pub turns : Option ℤ
  pub native : AnyMap

-- The bits of a float64 that is carried along and not computed with.
abbrev pub FloatBits : Type 0
FloatBits = ℕ

pub record CostEstimate : Type 0 where
  pub amount : FloatBits
  pub currency : String
  pub estimate : Bool

pub record CleanupMetadata : Type 0 where
  pub attempted : Bool
  pub completed : Bool
  pub failed : Bool
  pub error : Option SdkError

pub record PromptCacheDirective : Type 0 where
  pub key : String
  pub breakpoint_bytes : ℤ
  pub prefix_sha256 : String
  pub mode : String
  pub require_native : Bool

-- PromptCacheDirective.Enabled
unfoldable pub enabled : PromptCacheDirective → Bool
enabled d =
    not (is_empty d.key)
    || not (is_zero_int d.breakpoint_bytes)
    || not (is_empty d.prefix_sha256)
    || not (is_empty d.mode)
    || d.require_native

pub record PromptCacheMetadata : Type 0 where
  pub requested : Bool
  pub key_sha256 : String
  pub prefix_sha256 : String
  pub breakpoint_bytes : ℤ
  pub mode : String
  pub transport : String
  pub provider_managed : Bool
  pub native_routing_key_applied : Bool
  pub native_breakpoint_applied : Bool
  pub prompt_bytes_preserved : Bool
  pub detail : String
