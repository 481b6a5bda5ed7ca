-- ===== src/Redact/Paths.antt =====
-- What the redaction of metadata (redact.go) leaves of each text in it.
use agentwrap.Prelude.{
  ℕ, zero, suc, String, ◌≡◌, refl, ap, ◌∙◌, Bool, true, false, Bool-cases, inl, inr, Option, none,
  some, List, [], ◌∷◌, str_eq, eq_iff, if◌then◌else◌,
}
use agentwrap.Dynamic.{
  Any, nil, text, named, integer, boolean, instant, items, fields, opaque, typed, AnyList, no_items,
  item, AnyMap, no_fields, field, lookup,
}
use agentwrap.Redact.{
  Patterns, redacted, redact_string, redact_metadata, redact_metadata_value, redact_items,
}

-- A step into a map[string]any or a []any.
pub data Step : Type 0 where
  key : String → Step
  index : ℕ → Step

abbrev nth : ℕ → AnyList → Option Any
nth i no_items = none
nth zero (item x xs) = some x
nth (suc i) (item x xs) = nth i xs

-- What stands behind a step.
pub child : Step → Any → Option Any
child (key k) (fields m) = lookup k m
child (index i) (items xs) = nth i xs
child _ _ = none

-- A value of type string.
pub as_text : Any → Option String
as_text (text s) = some s
as_text _ = none

-- The text at the end of a path, if there is one.
pub text_at : List Step → Any → Option String
unfolding child as_text
text_at [] value = as_text value
text_at (step ∷ path) value = elim (child step value) [ none ↦ none | some v ↦ text_at path v ]

abbrev text_behind : List Step → Option Any → Option String
text_behind path found = elim found [ none ↦ none | some v ↦ text_at path v ]

-- The text that stands where a secret was.
pub marker_at : List Step → Option String
marker_at [] = some "[REDACTED]"
marker_at (step ∷ path) = none

module _ (re : Patterns) where
  -- The step is to the value of a secret.
  pub secret_step : Step → Bool
  secret_step (key k) = re.secret_name k
  secret_step (index i) = false

  pub replaced : Option String → Option String
  replaced none = none
  replaced (some s) = some (re.replace_assignment (re.replace_bearer s))

  -- The text that may be shown at the end of a path.
  pub shown_at : List Step → Any → Option String
  unfolding child as_text secret_step replaced marker_at
  shown_at [] value = replaced (as_text value)
  shown_at (step ∷ path) value = elim (child step value) [
    | none ↦ none
    | some v ↦ let below = shown_at path v in if secret_step step then marker_at path else below
  ]

  -- A value that was found, after the redaction.
  hidden : Bool → Option Any → Option Any
  unfolding redact_metadata_value
  hidden secret none = none
  hidden secret (some v) = some (if secret then text redacted else redact_metadata_value re v)

  hidden-entry :
      (k j : String) (value : Any) (found found' : Option Any)
      → found' ≡ hidden (re.secret_name k) found
      → (if str_eq j k
          then some (if re.secret_name j then text redacted else redact_metadata_value re value)
          else found')
        ≡ hidden (re.secret_name k) (if str_eq j k then some value else found)
  unfolding hidden
  hidden-entry k j value found found' h = elim (Bool-cases (str_eq j k)) [
    | inl t ↦ let same : j ≡ k = (eq_iff j k).0 t in rw (t, same) refl
    | inr f ↦ rw f h
  ]

  lookup-redact_metadata :
      (k : String) (m : AnyMap)
      → lookup k (redact_metadata re m) ≡ hidden (re.secret_name k) (lookup k m)
  unfolding lookup redact_metadata hidden
  lookup-redact_metadata k no_fields = refl
  lookup-redact_metadata k (field j value m) =
      hidden-entry k j value (lookup k m) (lookup k (redact_metadata re m))
        (lookup-redact_metadata k m)

  nth-redact_items : (i : ℕ) (xs : AnyList) → nth i (redact_items re xs) ≡ hidden false (nth i xs)
  unfolding redact_items hidden
  nth-redact_items i no_items = refl
  nth-redact_items zero (item x xs) = refl
  nth-redact_items (suc i) (item x xs) = nth-redact_items i xs

  child-redact_metadata_value :
      (step : Step) (value : Any)
      → child step (redact_metadata_value re value) ≡ hidden (secret_step step) (child step value)
  unfolding child redact_metadata_value secret_step hidden
  child-redact_metadata_value (key k) (fields m) = lookup-redact_metadata k m
  child-redact_metadata_value (index i) (items xs) = nth-redact_items i xs
  child-redact_metadata_value (key k) nil = refl
  child-redact_metadata_value (key k) (text s) = refl
  child-redact_metadata_value (key k) (named t s) = refl
  child-redact_metadata_value (key k) (integer n) = refl
  child-redact_metadata_value (key k) (boolean b) = refl
  child-redact_metadata_value (key k) (instant t) = refl
  child-redact_metadata_value (key k) (items xs) = refl
  child-redact_metadata_value (key k) (opaque n) = refl
  child-redact_metadata_value (key k) (typed t v) = refl
  child-redact_metadata_value (index i) nil = refl
  child-redact_metadata_value (index i) (text s) = refl
  child-redact_metadata_value (index i) (named t s) = refl
  child-redact_metadata_value (index i) (integer n) = refl
  child-redact_metadata_value (index i) (boolean b) = refl
  child-redact_metadata_value (index i) (instant t) = refl
  child-redact_metadata_value (index i) (fields m) = refl
  child-redact_metadata_value (index i) (opaque n) = refl
  child-redact_metadata_value (index i) (typed t v) = refl

  as_text-redact_metadata_value :
      (value : Any) → as_text (redact_metadata_value re value) ≡ replaced (as_text value)
  unfolding as_text redact_metadata_value redact_string replaced
  as_text-redact_metadata_value nil = refl
  as_text-redact_metadata_value (text s) = refl
  as_text-redact_metadata_value (named t s) = refl
  as_text-redact_metadata_value (integer n) = refl
  as_text-redact_metadata_value (boolean b) = refl
  as_text-redact_metadata_value (instant t) = refl
  as_text-redact_metadata_value (items xs) = refl
  as_text-redact_metadata_value (fields m) = refl
  as_text-redact_metadata_value (opaque n) = refl
  as_text-redact_metadata_value (typed t v) = refl

  text_at-redacted : (path : List Step) → text_at path (text redacted) ≡ marker_at path
  unfolding text_at marker_at child as_text
  text_at-redacted [] = refl
  text_at-redacted (key k ∷ path) = refl
  text_at-redacted (index i ∷ path) = refl

  -- The text behind a step, by what is found there.
  behind :
      (path : List Step) (secret : Bool) (found : Option Any)
      → ((v : Any) → text_at path (redact_metadata_value re v) ≡ shown_at path v)
      → text_behind path (hidden secret found) ≡ (elim found [
        | none ↦ none
        | some v ↦ let below = shown_at path v in if secret then marker_at path else below
      ])
  unfolding hidden
  behind path secret none rest = refl
  behind path true (some v) rest = text_at-redacted path
  behind path false (some v) rest = rest v

  -- Whatever the value, along any path through its map[string]any and []any values: a text that
  -- RedactMetadata leaves at the path's end is the marker if the last step was to the entry under a
  -- secret's name, and else the text that was there before with both replacements made; there is none
  -- where there was none, or beyond the entry of a secret's name. Values of other types are not
  -- looked into.
  pub text_at-redact_metadata_value :
      (path : List Step) (value : Any)
      → text_at path (redact_metadata_value re value) ≡ shown_at path value
  unfolding text_at shown_at
  text_at-redact_metadata_value [] value = as_text-redact_metadata_value value
  text_at-redact_metadata_value (step ∷ path) value =
      ap (text_behind path) (child-redact_metadata_value step value)
      ∙ behind path (secret_step step) (child step value) (text_at-redact_metadata_value path)
