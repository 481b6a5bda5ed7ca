-- ===== src/Config/Merge.antt =====
-- MergeEffectiveConfig of config.go: the last layer that sets a field decides it.
use agentwrap.Prelude.{◌≡◌, Option, none, some, List, [], ◌∷◌, ◌++◌}
use agentwrap.Config.{
  ConfigSource, ConfigValue, SecretValue, EffectiveConfig, ConfigLayer, set_value, tag_secrets,
}

-- The last layer that gives a value decides it.
unfoldable pub decided {ℓ} :
    {A : Type ℓ} → (ConfigLayer → Option A) → List ConfigLayer → Option (ConfigSource × A)
decided f [] = none
decided f (layer ∷ layers) = elim (decided f layers) [
  | some winner ↦ some winner
  | none ↦ elim (f layer) [ some value ↦ some (layer.source, value) | none ↦ none ]
]

pub value_or {ℓ} : {A : Type ℓ} → ConfigValue A → Option (ConfigSource × A) → ConfigValue A
value_or v none = v
value_or v (some (source, value)) = set_value source value

-- The secrets of all layers in their order, each under its layer's source.
pub all_secrets : List ConfigLayer → List SecretValue
all_secrets [] = []
all_secrets (layer ∷ layers) = tag_secrets layer.source layer.secrets ++ all_secrets layers

-- What the layers make of a configuration.
pub record IsDecided (layers : List ConfigLayer) (first cfg : EffectiveConfig) : Type 0 where
  pub runtime_kind : cfg.runtime_kind ≡ first.runtime_kind
  pub runtime_name :
      cfg.runtime_name ≡ value_or first.runtime_name (decided (λ l. l.runtime_name) layers)
  pub executable : cfg.executable ≡ value_or first.executable (decided (λ l. l.executable) layers)
  pub provider : cfg.provider ≡ value_or first.provider (decided (λ l. l.provider) layers)
  pub model : cfg.model ≡ value_or first.model (decided (λ l. l.model) layers)
  pub work_dir : cfg.work_dir ≡ value_or first.work_dir (decided (λ l. l.work_dir) layers)
  pub permissions :
      cfg.permissions ≡ value_or first.permissions (decided (λ l. l.permissions) layers)
  pub sandbox : cfg.sandbox ≡ value_or first.sandbox (decided (λ l. l.sandbox) layers)
  pub timeout : cfg.timeout ≡ value_or first.timeout (decided (λ l. l.timeout) layers)
  pub session_id : cfg.session_id ≡ value_or first.session_id (decided (λ l. l.session_id) layers)
  pub secrets : cfg.secrets ≡ first.secrets ++ all_secrets layers
