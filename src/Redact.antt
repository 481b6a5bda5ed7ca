-- ===== src/Redact.antt =====
-- redact.go: secrets are taken out of texts, maps and environment assignments.
pub mod Paths
use Prim.Native.Char.{code}
use agentwrap.Prelude.{
  String, ◌≡◌, refl, Bool, true, false, Option, none, some, List, [], ◌∷◌, ◌==◌, str_append,
  if◌then◌else◌,
}
use agentwrap.Errors.{StringMap, ErrorOption}
use agentwrap.Dynamic.{
  Any, nil, text, named, integer, boolean, instant, items, fields, opaque, typed, AnyList, no_items,
  item, AnyMap, no_fields, field,
}

-- What package regexp answers for the file's three patterns: whether a name looks like a secret's,
-- and the text with each bearer token, or each secret's assignment, replaced.
pub record Patterns : Type 0 where
  pub secret_name : String → Bool
  pub replace_bearer : String → String
  pub replace_assignment : String → String

abbrev pub redacted : String
redacted = "[REDACTED]"

-- strings.Cut(s, "="): what stands in front of the first "=" and behind it.
unfoldable pub cut_equals : String → Option (String × String)
cut_equals String.[] = none
cut_equals (String.◌∷◌ c s) =
    let rest = cut_equals s in
    if code c == b'='
    then some ("", s)
    else elim rest [ none ↦ none | some (a, b) ↦ some (String.◌∷◌ c a, b) ]

module _ (re : Patterns) where
  unfoldable pub redact_string : String → String
  redact_string value = re.replace_assignment (re.replace_bearer value)

  unfoldable mutual
    unfolding redact_string

    pub redact_metadata : AnyMap → AnyMap
    redact_metadata no_fields = no_fields
    redact_metadata (field key value m) =
        field key (if re.secret_name key then text redacted else redact_metadata_value value)
          (redact_metadata m)

    pub redact_metadata_value : Any → Any
    redact_metadata_value (text s) = text (redact_string s)
    redact_metadata_value (fields m) = fields (redact_metadata m)
    redact_metadata_value (items xs) = items (redact_items xs)
    redact_metadata_value nil = nil
    redact_metadata_value (named t s) = named t s
    redact_metadata_value (integer n) = integer n
    redact_metadata_value (boolean b) = boolean b
    redact_metadata_value (instant t) = instant t
    redact_metadata_value (opaque n) = opaque n
    redact_metadata_value (typed t v) = typed t v

    pub redact_items : AnyList → AnyList
    redact_items no_items = no_items
    redact_items (item x xs) = item (redact_metadata_value x) (redact_items xs)

  redact_entries : List (String × String) → List (String × String)
  unfolding redact_string
  redact_entries [] = []
  redact_entries ((key, value) ∷ m) =
      (key, if re.secret_name key then redacted else redact_string value) ∷ redact_entries m

  unfoldable pub redact_string_map : StringMap → StringMap
  unfolding redact_entries
  redact_string_map none = none
  redact_string_map (some m) = some (redact_entries m)

  unfoldable pub redact_assignment : String → Option (String × String) → String
  unfolding redact_string
  redact_assignment entry none = redact_string entry
  redact_assignment entry (some (name, value)) =
      if re.secret_name name
      then str_append name "=[REDACTED]"
      else str_append name (str_append "=" (redact_string value))

  unfoldable pub redact_env : List String → List String
  unfolding redact_assignment cut_equals
  redact_env [] = []
  redact_env (entry ∷ env) = redact_assignment entry (cut_equals entry) ∷ redact_env env

  -- WithMetadata and WithResponse of errors.go.
  unfoldable pub with_metadata : StringMap → ErrorOption
  unfolding redact_string_map
  with_metadata metadata e = record e { metadata = redact_string_map metadata }

  unfoldable pub with_response : StringMap → String → ErrorOption
  unfolding redact_string_map redact_string
  with_response headers body e = record e {
    response_headers = redact_string_map headers;
    response_body = redact_string body;
  }
