-- ===== src/Config.antt =====
-- config.go: the layers of a configuration, their merge, and what the merged values must meet; with
-- SecretFromEnv of redact.go.
pub mod Merge
pub mod Entries
pub mod Valid
use agentwrap.Prelude.{
  ℕ, ℤ, pos, Duration, String, Bool, true, false, ◌&&◌, Option, none, some, List, [], ◌∷◌, ◌++◌,
  str_eq, is_empty, is_negative, is_zero_int, if◌then◌else◌,
}
use agentwrap.Errors.{ErrorCategory, PlainError, StringMap, SdkError, new_error}
use agentwrap.Redact.{Patterns, cut_equals}
use agentwrap.Contract.{RunRequest}

pub data ConfigSource : Type 0 where
  default adapter_option environment config_provider caller_request runtime_discovered :
      ConfigSource
  other : String → ConfigSource

pub record ConfigValue {ℓ} (A : Type ℓ) : Type ℓ where
  pub value : A
  pub source : ConfigSource
  pub is_set : Bool

pub record SecretValue : Type 0 where
  pub name : String
  pub source : ConfigSource
  pub present : Bool

-- The entries of `metadata` are a map's, each key once.
pub record EffectiveConfig : Type 0 where
  pub runtime_kind : String
  pub runtime_name : ConfigValue String
  pub executable : ConfigValue String
  pub provider : ConfigValue String
  pub model : ConfigValue String
  pub work_dir : ConfigValue String
  pub permissions : ConfigValue String
  pub sandbox : ConfigValue String
  pub timeout : ConfigValue Duration
  pub session_id : ConfigValue String
  pub metadata : List (String × ConfigValue String)
  pub secrets : List SecretValue

-- A pointer is nil or the value behind it.
pub record ConfigLayer : Type 0 where
  pub source : ConfigSource
  pub runtime_name : Option String
  pub executable : Option String
  pub provider : Option String
  pub model : Option String
  pub work_dir : Option String
  pub permissions : Option String
  pub sandbox : Option String
  pub timeout : Option Duration
  pub session_id : Option String
  pub metadata : StringMap
  pub secrets : List SecretValue

-- The zero value, of a type with this zero; the source is then the empty text.
abbrev pub unset_value {ℓ} : {A : Type ℓ} → A → ConfigValue A
unset_value zero_value = record {
  value = zero_value;
  source = ConfigSource.other "";
  is_set = false;
}

abbrev pub set_value {ℓ} : {A : Type ℓ} → ConfigSource → A → ConfigValue A
set_value source value = record { value = value; source = source; is_set = true }

-- if layer.F != nil { cfg.F = ... }
abbrev pub override {ℓ} : {A : Type ℓ} → ConfigSource → Option A → ConfigValue A → ConfigValue A
override source none v = v
override source (some value) v = set_value source value

abbrev pub put_value :
    String
    → ConfigValue String
    → List (String × ConfigValue String)
    → List (String × ConfigValue String)
put_value k v [] = (k, v) ∷ []
put_value k v ((j, w) ∷ m) =
    let rest = put_value k v m in if str_eq j k then (k, v) ∷ m else (j, w) ∷ rest

abbrev pub put_entries :
    ConfigSource
    → List (String × String)
    → List (String × ConfigValue String)
    → List (String × ConfigValue String)
put_entries source [] m = m
put_entries source ((key, value) ∷ entries) m =
    put_entries source entries (put_value key (set_value source value) m)

unfoldable pub put_metadata :
    ConfigSource
    → StringMap
    → List (String × ConfigValue String)
    → List (String × ConfigValue String)
put_metadata source none m = m
put_metadata source (some entries) m = put_entries source entries m

unfoldable pub tag_secrets : ConfigSource → List SecretValue → List SecretValue
tag_secrets source [] = []
tag_secrets source (secret ∷ secrets) =
    record secret { source = source } ∷ tag_secrets source secrets

-- One round of MergeEffectiveConfig.
unfoldable pub apply_layer : EffectiveConfig → ConfigLayer → EffectiveConfig
unfolding put_metadata tag_secrets
apply_layer cfg layer = record {
  runtime_kind = cfg.runtime_kind;
  runtime_name = override layer.source layer.runtime_name cfg.runtime_name;
  executable = override layer.source layer.executable cfg.executable;
  provider = override layer.source layer.provider cfg.provider;
  model = override layer.source layer.model cfg.model;
  work_dir = override layer.source layer.work_dir cfg.work_dir;
  permissions = override layer.source layer.permissions cfg.permissions;
  sandbox = override layer.source layer.sandbox cfg.sandbox;
  timeout = override layer.source layer.timeout cfg.timeout;
  session_id = override layer.source layer.session_id cfg.session_id;
  metadata = put_metadata layer.source layer.metadata cfg.metadata;
  secrets = cfg.secrets ++ tag_secrets layer.source layer.secrets;
}

unfoldable pub apply_layers : EffectiveConfig → List ConfigLayer → EffectiveConfig
unfolding apply_layer
apply_layers cfg [] = cfg
apply_layers cfg (layer ∷ layers) = apply_layers (apply_layer cfg layer) layers

abbrev pub empty_config : String → EffectiveConfig
empty_config kind = record {
  runtime_kind = kind;
  runtime_name = unset_value "";
  executable = unset_value "";
  provider = unset_value "";
  model = unset_value "";
  work_dir = unset_value "";
  permissions = unset_value "";
  sandbox = unset_value "";
  timeout = unset_value (pos 0);
  session_id = unset_value "";
  metadata = [];
  secrets = [];
}

unfoldable pub merge_effective_config : String → List ConfigLayer → EffectiveConfig
unfolding apply_layers
merge_effective_config kind layers = apply_layers (empty_config kind) layers

-- `errors.New` makes an error of its own identity, here `fresh`.
unfoldable pub config_validation_error : ℕ → String → SdkError
unfolding new_error
config_validation_error fresh detail =
    new_error ErrorCategory.configuration "config validation" detail
      (some (PlainError.message fresh detail)) []

abbrev set_empty : ConfigValue String → Bool
set_empty v = v.is_set && is_empty v.value

unfoldable pub validate_effective_config : ℕ → EffectiveConfig → Option SdkError
unfolding config_validation_error
validate_effective_config fresh cfg =
    if set_empty cfg.runtime_name
    then some (config_validation_error fresh "runtime name cannot be empty")
    else if set_empty cfg.executable
    then some (config_validation_error fresh "runtime executable cannot be empty")
    else if set_empty cfg.provider
    then some (config_validation_error fresh "provider cannot be empty when set")
    else if set_empty cfg.model
    then some (config_validation_error fresh "model cannot be empty when set")
    else if cfg.timeout.is_set && is_negative cfg.timeout.value
    then some (config_validation_error fresh "timeout cannot be negative")
    else if set_empty cfg.work_dir
    then some (config_validation_error fresh "workdir cannot be empty when set")
    else none

abbrev unless_empty : String → Option String
unless_empty s = if is_empty s then none else some s

unfoldable pub caller_config_layer : RunRequest → ConfigLayer
caller_config_layer req = record {
  source = ConfigSource.caller_request;
  runtime_name = none;
  executable = none;
  provider = unless_empty req.provider;
  model = unless_empty req.model;
  work_dir = unless_empty req.work_dir;
  permissions = unless_empty req.permissions;
  sandbox = unless_empty req.sandbox;
  timeout = if is_zero_int req.timeout then none else some req.timeout;
  session_id = unless_empty req.session_id;
  metadata = req.metadata;
  secrets = [];
}

-- SecretFromEnv: the assignment's name, if it looks like a secret's, without its value.
pub secret_from_env : Patterns → String → ConfigSource → Option SecretValue
secret_from_env re env source = elim (cut_equals env) [
  | none ↦ none
  | some (name, value) ↦
      if re.secret_name name
      then some (record { name = name; source = source; present = true })
      else none
]
