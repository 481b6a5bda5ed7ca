-- ===== src/Config/Entries.antt =====
-- The metadata that MergeEffectiveConfig (config.go) leaves: each key's last layer decides it.
use agentwrap.Prelude.{
  String, str_eq, eq_iff, arith, ◌≡◌, refl, ap, ◌∙◌, Bool, true, false, Option, none, some, List,
  [], ◌∷◌, if◌then◌else◌,
}
use agentwrap.Errors.{StringMap}
use agentwrap.Config.{
  ConfigSource, ConfigValue, EffectiveConfig, ConfigLayer, set_value, put_value, put_entries,
  put_metadata, apply_layer, apply_layers, empty_config, merge_effective_config,
}
use agentwrap.Config.Merge.{decided}

-- m[key]
pub lookup {ℓ} : {A : Type ℓ} → String → List (String × A) → Option A
lookup key [] = none
lookup key ((k, value) ∷ entries) = if str_eq k key then some value else lookup key entries

last_entry : String → List (String × String) → Option String
last_entry key [] = none
last_entry key ((k, value) ∷ entries) = elim (last_entry key entries) [
  | some v ↦ some v
  | none ↦ if str_eq k key then some value else none
]

entry_of : String → StringMap → Option String
entry_of key none = none
entry_of key (some entries) = last_entry key entries

-- A layer's entry under the key: a map has one at most, and of a list the last one counts.
pub layer_entry : String → ConfigLayer → Option String
unfolding entry_of last_entry
layer_entry key layer = entry_of key layer.metadata

pub entry_or :
    Option (ConfigValue String) → Option (ConfigSource × String) → Option (ConfigValue String)
entry_or v none = v
entry_or v (some (source, value)) = some (set_value source value)

over : ConfigSource → Option String → Option (ConfigValue String) → Option (ConfigValue String)
over source none v = v
over source (some value) v = some (set_value source value)

lookup-put_value :
    (k j : String) (v : ConfigValue String) (m : List (String × ConfigValue String))
    → lookup j (put_value k v m) ≡ (if str_eq k j then some v else lookup j m)
unfolding lookup
lookup-put_value k j v [] = refl
lookup-put_value k j v ((i, w) ∷ m) =
    ground (arith, eq_iff k j, eq_iff i k, eq_iff i j, lookup-put_value k j v m)

over_last :
    (source : ConfigSource) (v : String) (later : Option String) (b : Bool)
    (before : Option (ConfigValue String))
    → over source later (if b then some (set_value source v) else before)
      ≡ over source (elim later [ some w ↦ some w | none ↦ if b then some v else none ]) before
unfolding over
over_last source v (some w) b before = refl
over_last source v none true before = refl
over_last source v none false before = refl

lookup-put_entries :
    (key : String) (source : ConfigSource) (entries : List (String × String))
    (m : List (String × ConfigValue String))
    → lookup key (put_entries source entries m)
      ≡ over source (last_entry key entries) (lookup key m)
unfolding last_entry over
lookup-put_entries key source [] m = refl
lookup-put_entries key source ((k, v) ∷ es) m =
    lookup-put_entries key source es (put_value k (set_value source v) m)
    ∙ ap (over source (last_entry key es)) (lookup-put_value k key (set_value source v) m)
    ∙ over_last source v (last_entry key es) (str_eq k key) (lookup key m)

lookup-put_metadata :
    (key : String) (source : ConfigSource) (metadata : StringMap)
    (m : List (String × ConfigValue String))
    → lookup key (put_metadata source metadata m)
      ≡ over source (entry_of key metadata) (lookup key m)
unfolding put_metadata entry_of over
lookup-put_metadata key source none m = refl
lookup-put_metadata key source (some es) m = lookup-put_entries key source es m

over_decided :
    (source : ConfigSource) (here : Option String) (winner : Option (ConfigSource × String))
    (v : Option (ConfigValue String))
    → entry_or (over source here v) winner
      ≡ entry_or v (elim winner [
        | some w ↦ some w
        | none ↦ elim here [ some value ↦ some (source, value) | none ↦ none ]
      ])
unfolding entry_or over
over_decided source here (some w) v = refl
over_decided source none none v = refl
over_decided source (some value) none v = refl

lookup-apply_layers :
    (key : String) (cfg : EffectiveConfig) (ls : List ConfigLayer)
    → lookup key (apply_layers cfg ls).metadata
      ≡ entry_or (lookup key cfg.metadata) (decided (layer_entry key) ls)
unfolding apply_layers decided entry_or layer_entry
lookup-apply_layers key cfg [] = refl
lookup-apply_layers key cfg (l ∷ ls) =
    lookup-apply_layers key (apply_layer cfg l) ls
    ∙ ap (λ v. entry_or v (decided (layer_entry key) ls))
        (lookup-put_metadata key l.source l.metadata cfg.metadata)
    ∙ over_decided l.source (entry_of key l.metadata) (decided (layer_entry key) ls)
        (lookup key cfg.metadata)

-- In the merged configuration each metadata key has the value and the source of the last layer with
-- an entry under it, and no entry where no layer has one.
pub lookup-merge_effective_config :
    (kind : String) (layers : List ConfigLayer) (key : String)
    → lookup key (merge_effective_config kind layers).metadata
      ≡ entry_or none (decided (layer_entry key) layers)
unfolding merge_effective_config lookup
lookup-merge_effective_config kind layers key = lookup-apply_layers key (empty_config kind) layers
