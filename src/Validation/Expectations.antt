-- ===== src/Validation/Expectations.antt =====
-- The checks of validation.go for each kind of expectation, and ValidateRun.
pub mod Exact
pub mod Pieces
use agentwrap.Prelude.{
  String, ◌≡◌, refl, ◌⊎◌, inl, inr, Bool, true, false, not, ◌&&◌, ◌||◌, Option, none, some, List,
  [], ◌∷◌, ◌++◌, is_empty, str_append, str_eq, join_texts, if◌then◌else◌,
}
use agentwrap.Errors.{PlainError, plain_text}
use agentwrap.Dynamic.{Any, fields, AnyMap, lookup}
use agentwrap.Policy.Requests.{sort_keys}
use agentwrap.Contract.{
  Handle, ArtifactRef, RunRequest, RunResult, NativeMetadata, RateLimitEntry, ExpectationKind,
  ValidationExpectation, ValidationCheck, ValidationResult, ValidationSpec,
}
use agentwrap.Validation.Checks.{failed_check, passed_check, kind_text, normalize_check}
use agentwrap.Validation.Headings.{missing_in_order}
use agentwrap.Validation.Markdown.{markdown_headings, unresolved_template_slots}
use agentwrap.Validation.Aggregate.{aggregate_validation}
use agentwrap.Validation.Runner.State.{Environment, ValidationContext}

-- validateArtifact: the loop over the artifacts.
pub artifact_check : ValidationExpectation → List ArtifactRef → Option ValidationCheck
unfolding passed_check
artifact_check exp [] = none
artifact_check exp (artifact ∷ artifacts) =
    if not (is_empty exp.artifact_id) && str_eq artifact.id exp.artifact_id
    then some (passed_check exp exp.artifact_id "referenced")
    else if not (is_empty exp.artifact_uri) && str_eq artifact.uri exp.artifact_uri
    then some (passed_check exp exp.artifact_uri "referenced")
    else artifact_check exp artifacts

expected_artifact : ValidationExpectation → String
expected_artifact exp =
    if not (is_empty exp.artifact_id)
    then exp.artifact_id
    else if not (is_empty exp.artifact_uri)
    then exp.artifact_uri
    else "artifact reference"

found_or : Option ValidationCheck → ValidationCheck → ValidationCheck
found_or none missing = missing
found_or (some check) missing = check

unfoldable pub validate_artifact : ValidationExpectation → RunResult → ValidationCheck
unfolding artifact_check expected_artifact failed_check found_or
validate_artifact exp result =
    found_or (artifact_check exp (result.artifacts ++ result.metadata.artifacts))
      (failed_check exp (expected_artifact exp) "missing" "artifact reference was not present")

-- Whether the native metadata has an entry under the key.
abbrev has_rate_limit : RateLimitEntry → Bool
has_rate_limit RateLimitEntry.absent = false
has_rate_limit _ = true

unfoldable pub has_native_key : String → NativeMetadata → Bool
has_native_key key m =
    if str_eq key "rate_limit_info"
    then has_rate_limit m.rate_limit_info
    else elim (lookup key m.rest) [ none ↦ false | some v ↦ true ]

unfoldable pub validate_metadata : ValidationExpectation → RunResult → ValidationCheck
unfolding has_native_key failed_check passed_check
validate_metadata exp result =
    if is_empty exp.metadata_key
    then failed_check exp "metadata key" "empty" "metadata expectation requires a key"
    else if has_native_key exp.metadata_key result.metadata.native_metadata
    then passed_check exp exp.metadata_key "present"
    else failed_check exp exp.metadata_key "missing" "metadata key was not present"

unless_there : Option Any → String → List String → List String
unless_there none field rest = field ∷ rest
unless_there (some v) field rest = rest

-- The required fields that the object does not have.
pub missing_fields : List String → AnyMap → List String
unfolding unless_there
missing_fields [] obj = []
missing_fields (field ∷ required) obj =
    unless_there (lookup field obj) field (missing_fields required obj)

missing_check : ValidationExpectation → List String → ValidationCheck → ValidationCheck
unfolding failed_check sort_keys
missing_check exp [] passed = passed
missing_check exp (field ∷ missing) passed =
    failed_check exp (str_append "required fields: " (join_texts ", " exp.required_fields))
      (str_append "missing: " (join_texts ", " (sort_keys (field ∷ missing))))
      "JSON object is missing required fields"

-- The tests of the required fields, of which there is one at least.
required_check : ValidationExpectation → Any × String → ValidationCheck → ValidationCheck
unfolding missing_check missing_fields failed_check
required_check exp (fields obj, shown) passed =
    missing_check exp (missing_fields exp.required_fields obj) passed
required_check exp (value, shown) passed =
    failed_check exp "JSON object" shown "required fields need a JSON object"

fields_check :
    ValidationExpectation → List String → Any × String → ValidationCheck → ValidationCheck
unfolding required_check
fields_check exp [] value passed = passed
fields_check exp (field ∷ required) value passed = required_check exp value passed

pub json_check : ValidationExpectation → String → String ⊎ (Any × String) → ValidationCheck
unfolding fields_check failed_check passed_check
json_check exp path (inl err) = failed_check exp "well-formed JSON" "invalid JSON" err
json_check exp path (inr value) =
    fields_check exp exp.required_fields value (passed_check exp path "valid JSON")

missing_headings :
    ValidationExpectation → List String → List String → ValidationCheck → ValidationCheck
unfolding failed_check
missing_headings exp headings [] otherwise = otherwise
missing_headings exp headings (m ∷ missing) otherwise =
    failed_check exp (join_texts " > " headings)
      (str_append "missing or out of order: " (join_texts ", " (m ∷ missing)))
      "required Markdown headings are missing or out of order"

unresolved_check : ValidationExpectation → List String → ValidationCheck → ValidationCheck
unfolding failed_check
unresolved_check exp [] otherwise = otherwise
unresolved_check exp (slot ∷ slots) otherwise =
    failed_check exp "resolved template placeholders" (join_texts ", " (slot ∷ slots))
      "markdown artifact contains unresolved template placeholders"

-- The tests on the texts of the template and the artifact.
pub template_check : ValidationExpectation → String → List String → String → ValidationCheck
unfolding missing_headings unresolved_check missing_in_order markdown_headings
    unresolved_template_slots
template_check exp template_path [] artifact =
    failed_check exp "template headings" "none" "template has no Markdown headings"
template_check exp template_path (h ∷ headings) artifact =
    missing_headings exp (h ∷ headings)
      (missing_in_order (h ∷ headings) (markdown_headings artifact))
      (unresolved_check exp (unresolved_template_slots artifact)
        (passed_check exp template_path "markdown template matched"))

pub path_check : ValidationExpectation → String → Bool → Option Bool → ValidationCheck
unfolding failed_check passed_check
path_check exp path want_dir none = failed_check exp path "missing" "path was not found"
path_check exp path true (some false) =
    failed_check exp "directory" "file" "path exists but is not a directory"
path_check exp path false (some true) =
    failed_check exp "file" "directory" "path exists but is a directory"
path_check exp path want_dir (some is_dir) = passed_check exp path "present"

module _ {W : Type 0} (env : Environment W) where
  unfoldable pub resolve_path : String → String → String
  resolve_path work_dir path =
      if is_empty path || env.is_abs path || is_empty work_dir then path else env.join work_dir path

  unfoldable pub validate_path : ValidationExpectation → String → Bool → W → ValidationCheck × W
  unfolding resolve_path path_check
  validate_path exp work_dir want_dir w =
      let path = resolve_path work_dir exp.path in
      let (info, w') = env.stat path w in (path_check exp path want_dir info, w')

  artifact_read : ValidationExpectation → String → String → String → Option String → ValidationCheck
  unfolding template_check markdown_headings
  artifact_read exp template_path artifact_path template none =
      failed_check exp artifact_path "unreadable" "markdown artifact could not be read"
  artifact_read exp template_path artifact_path template (some artifact) =
      template_check exp template_path (markdown_headings template) artifact

  template_read : ValidationExpectation → String → String → Option String → W → ValidationCheck × W
  unfolding artifact_read
  template_read exp template_path artifact_path none w =
      (failed_check exp template_path "unreadable" "template file could not be read", w)
  template_read exp template_path artifact_path (some template) w =
      let (artifact, w') = env.read_file artifact_path w in
      (artifact_read exp template_path artifact_path template artifact, w')

  unfoldable pub validate_markdown_template :
      ValidationExpectation → String → W → ValidationCheck × W
  unfolding resolve_path template_read
  validate_markdown_template exp work_dir w =
      let template_path = resolve_path work_dir exp.template_path in
      let artifact_path = resolve_path work_dir exp.path in
      let (template, w') = env.read_file template_path w in
      template_read exp template_path artifact_path template w'

  json_read : ValidationExpectation → String → Option String → ValidationCheck
  unfolding json_check
  json_read exp path none = failed_check exp path "unreadable" "JSON file could not be read"
  json_read exp path (some content) = json_check exp path (env.unmarshal content)

  unfoldable pub validate_json : ValidationExpectation → String → W → ValidationCheck × W
  unfolding resolve_path json_read
  validate_json exp work_dir w =
      let path = resolve_path work_dir exp.path in
      let (content, w') = env.read_file path w in (json_read exp path content, w')

  -- The switch of validateExpectation.
  check_kind : ExpectationKind → ValidationContext → ValidationExpectation → W → ValidationCheck × W
  unfolding validate_path validate_artifact validate_markdown_template validate_json
      validate_metadata
  check_kind ExpectationKind.file c exp w = validate_path exp c.work_dir false w
  check_kind ExpectationKind.directory c exp w = validate_path exp c.work_dir true w
  check_kind ExpectationKind.artifact c exp w = (validate_artifact exp c.result, w)
  check_kind ExpectationKind.markdown_template c exp w = validate_markdown_template exp c.work_dir w
  check_kind ExpectationKind.json c exp w = validate_json exp c.work_dir w
  check_kind ExpectationKind.metadata c exp w = (validate_metadata exp c.result, w)
  check_kind kind c exp w = (
    failed_check exp "supported expectation kind" (kind_text kind)
        "unknown validation expectation kind",
    w,
  )

  check_unless :
      Option PlainError → ValidationContext → ValidationExpectation → W → ValidationCheck × W
  unfolding check_kind
  check_unless (some err) c exp w =
      (failed_check exp "context active" (plain_text err) "validation cancelled", w)
  check_unless none c exp w = check_kind exp.kind c exp w

  unfoldable pub validate_expectation :
      ValidationContext → ValidationExpectation → W → ValidationCheck × W
  unfolding check_unless
  validate_expectation c exp w = let (e, w') = env.ctx_err w in check_unless e c exp w'

  unfoldable pub validate_expectations :
      ValidationContext → List ValidationExpectation → W → List ValidationCheck × W
  unfolding validate_expectation
  validate_expectations c [] w = ([], w)
  validate_expectations c (exp ∷ exps) w =
      let (check, w1) = validate_expectation c exp w in
      let (checks, w2) = validate_expectations c exps w1 in (check ∷ checks, w2)

  -- The caller's validators; a nil one is passed over.
  unfoldable pub run_validators :
      ValidationContext → List (Option Handle) → W → List ValidationCheck × W
  unfolding normalize_check
  run_validators c [] w = ([], w)
  run_validators c (none ∷ validators) w = run_validators c validators w
  run_validators c (some v ∷ validators) w =
      let (check, w1) = env.run_validator v c w in
      let (checks, w2) = run_validators c validators w1 in (normalize_check check ∷ checks, w2)

  unfoldable pub validate_run : RunRequest → RunResult → ValidationSpec → W → ValidationResult × W
  unfolding validate_expectations run_validators aggregate_validation
  validate_run req result spec w =
      let c : ValidationContext = record {
        request = req;
        result = result;
        work_dir = req.work_dir;
      } in
      let (built_in, w1) = validate_expectations c spec.expectations w in
      let (own, w2) = run_validators c spec.validators w1 in
      (aggregate_validation env.patterns (built_in ++ own), w2)
