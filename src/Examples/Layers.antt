-- ===== src/Examples/Layers.antt =====
-- Two layers of a configuration.
use agentwrap.Prelude.{negsuc, ◌≡◌, refl, ◌↔◌, true, none, some, List, [], ◌∷◌}
use agentwrap.Config.{
  ConfigSource, ConfigLayer, empty_config, set_value, merge_effective_config,
  validate_effective_config,
}
use agentwrap.Config.Entries.{lookup, entry_or, layer_entry, lookup-merge_effective_config}
use agentwrap.Config.Merge.{decided}
use agentwrap.Config.Valid.{IsValid, validate_effective_config_exact}

abbrev no_layer : ConfigSource → ConfigLayer
no_layer source = record {
  source = source;
  runtime_name = none;
  executable = none;
  provider = none;
  model = none;
  work_dir = none;
  permissions = none;
  sandbox = none;
  timeout = none;
  session_id = none;
  metadata = none;
  secrets = [];
}

abbrev two_layers : List ConfigLayer
two_layers =
    record (no_layer ConfigSource.default) {
      provider = some "local";
      model = some "small";
      metadata = some (("team", "a") ∷ []);
    }
    ∷ record (no_layer ConfigSource.environment) {
      model = some "large";
      metadata = some (("team", "b") ∷ []);
      secrets = record { name = "KEY"; source = ConfigSource.default; present = true } ∷ [];
    }
    ∷ []

model_test :
    (merge_effective_config "cli" two_layers).model ≡ set_value ConfigSource.environment "large"
unfolding merge_effective_config
model_test = refl

metadata_test :
    (merge_effective_config "cli" two_layers).metadata
    ≡ ("team", set_value ConfigSource.environment "b") ∷ []
unfolding merge_effective_config
metadata_test = refl

validate_effective_config_exact_example :
    validate_effective_config 0
        (record (empty_config "cli") { timeout = set_value ConfigSource.default (negsuc 4) })
      ≡ none
    ↔ IsValid (record (empty_config "cli") { timeout = set_value ConfigSource.default (negsuc 4) })
validate_effective_config_exact_example =
    validate_effective_config_exact 0
      (record (empty_config "cli") { timeout = set_value ConfigSource.default (negsuc 4) })

lookup-merge_effective_config_example :
    lookup "team" (merge_effective_config "cli" two_layers).metadata
    ≡ entry_or none (decided (layer_entry "team") two_layers)
lookup-merge_effective_config_example = lookup-merge_effective_config "cli" two_layers "team"
