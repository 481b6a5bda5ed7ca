-- ===== src/Contract/Checks.antt =====
-- The data of validation.go: what a run is checked against, and what the checks found.
use agentwrap.Prelude.{ℕ, ℤ, String, Bool, Option, List}
use agentwrap.Errors.{SdkError}
use agentwrap.Dynamic.{AnyMap}
use agentwrap.Contract.Session.{Handle, SessionAction}

pub data ExpectationKind : Type 0 where
  unset file directory artifact markdown_template json metadata custom : ExpectationKind
  other : String → ExpectationKind

pub data ExpectationSeverity : Type 0 where
  unset required optional : ExpectationSeverity
  other : String → ExpectationSeverity

pub record ValidationExpectation : Type 0 where
  pub id : String
  pub kind : ExpectationKind
  pub severity : ExpectationSeverity
  pub path : String
  pub artifact_id : String
  pub artifact_uri : String
  pub template_path : String
  pub metadata_key : String
  pub required_fields : List String
  pub repair_hint : String

pub record ValidationCheck : Type 0 where
  pub expectation_id : String
  pub kind : ExpectationKind
  pub severity : ExpectationSeverity
  pub passed : Bool
  pub skipped : Bool
  pub expected : String
  pub observed : String
  pub detail : String
  pub repair_hint : String

pub record ValidationFailure : Type 0 where
  pub expectation_id : String
  pub kind : ExpectationKind
  pub severity : ExpectationSeverity
  pub expected : String
  pub observed : String
  pub detail : String
  pub repair_hint : String

pub record ValidationResult : Type 0 where
  pub passed : Bool
  pub skipped : Bool
  pub passed_count : ℕ
  pub failed_count : ℕ
  pub skipped_count : ℕ
  pub checks : List ValidationCheck
  pub failures : List ValidationFailure
  pub errors : List SdkError
  pub native : AnyMap

-- The hooks are functions of the caller, by their identity.
pub record RepairConfig : Type 0 where
  pub max_attempts : ℤ
  pub session_action : SessionAction
  pub allow_fresh_session_fallback : Bool
  pub fresh_session_fallback_on_error : Bool
  pub should_repair : Option Handle
  pub build_prompt : Option Handle
  pub override_request : Option Handle

-- A validator that is nil is `none`.
pub record ValidationSpec : Type 0 where
  pub expectations : List ValidationExpectation
  pub validators : List (Option Handle)
  pub repair : RepairConfig
