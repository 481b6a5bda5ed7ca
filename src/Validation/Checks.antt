-- ===== src/Validation/Checks.antt =====
-- validation.go: single checks, as they are made and as they are put in order.
use Prim.Native.Char.{code}
use agentwrap.Prelude.{
  ℕ, zero, suc, ◌+◌, ◌-◌, String, ◌≡◌, refl, Bool, true, false, not, ◌&&◌, ◌||◌, ◌==◌, ltb, leb,
  is_empty, str_append, if◌then◌else◌,
}
use agentwrap.Contract.{
  ExpectationKind, ExpectationSeverity, ValidationExpectation, ValidationCheck,
}

-- unicode.IsSpace
abbrev is_space : ℕ → Bool
is_space n =
    (leb 9 n && leb n 13)
    || n == 32
    || n == 133
    || n == 160
    || n == 5760
    || (leb 8192 n && leb n 8202)
    || n == 8232
    || n == 8233
    || n == 8239
    || n == 8287
    || n == 12288

trim_left : String → String
trim_left String.[] = ""
trim_left (String.◌∷◌ c s) =
    let rest = trim_left s in if is_space (code c) then rest else String.◌∷◌ c s

trim_right : String → String
trim_right String.[] = ""
trim_right (String.◌∷◌ c s) =
    let rest = trim_right s in if is_empty rest && is_space (code c) then "" else String.◌∷◌ c rest

-- strings.TrimSpace
unfoldable pub trim_space : String → String
unfolding trim_left trim_right
trim_space s = trim_right (trim_left s)

-- The bytes of a character in UTF-8.
abbrev utf8_width : ℕ → ℕ
utf8_width n = if ltb n 128 then 1 else if ltb n 2048 then 2 else if ltb n 65536 then 3 else 4

unfoldable pub byte_length : String → ℕ
byte_length String.[] = 0
byte_length (String.◌∷◌ c s) = utf8_width (code c) + byte_length s

-- A byte of a character that is cut in two reads as U+FFFD, as it does for `range`.
broken : ℕ → String
broken zero = ""
broken (suc n) = str_append "�" (broken n)

-- value[:limit]
byte_prefix : ℕ → String → String
unfolding broken
byte_prefix limit String.[] = ""
byte_prefix limit (String.◌∷◌ c s) =
    let rest = byte_prefix (limit - utf8_width (code c)) s in
    if ltb limit (utf8_width (code c)) then broken limit else String.◌∷◌ c rest

unfoldable pub safe_detail : String → String
unfolding trim_space byte_length byte_prefix
safe_detail value =
    let trimmed = trim_space value in
    if leb (byte_length trimmed) 240 then trimmed else str_append (byte_prefix 240 trimmed) "..."

safe_detail_test : safe_detail "  two words\t\n" ≡ "two words"
unfolding safe_detail
safe_detail_test = refl

unfoldable pub severity : ExpectationSeverity → ExpectationSeverity
severity ExpectationSeverity.unset = ExpectationSeverity.required
severity s = s

unfoldable pub severity_required : ExpectationSeverity → Bool
severity_required ExpectationSeverity.unset = true
severity_required ExpectationSeverity.required = true
severity_required _ = false

pub severity_required-severity :
    (s : ExpectationSeverity) → severity_required (severity s) ≡ severity_required s
unfolding severity_required severity
severity_required-severity ExpectationSeverity.unset = refl
severity_required-severity ExpectationSeverity.required = refl
severity_required-severity ExpectationSeverity.optional = refl
severity_required-severity (ExpectationSeverity.other s) = refl

abbrev pub kind_text : ExpectationKind → String
kind_text ExpectationKind.unset = ""
kind_text ExpectationKind.file = "file"
kind_text ExpectationKind.directory = "directory"
kind_text ExpectationKind.artifact = "artifact"
kind_text ExpectationKind.markdown_template = "markdown_template"
kind_text ExpectationKind.json = "json"
kind_text ExpectationKind.metadata = "metadata"
kind_text ExpectationKind.custom = "custom"
kind_text (ExpectationKind.other s) = s

unfoldable pub expectation_id : ValidationExpectation → String
expectation_id exp =
    if not (is_empty exp.id)
    then exp.id
    else if not (is_empty exp.path)
    then str_append (kind_text exp.kind) (str_append ":" exp.path)
    else if not (is_empty exp.artifact_id)
    then str_append (kind_text exp.kind) (str_append ":" exp.artifact_id)
    else if not (is_empty exp.metadata_key)
    then str_append (kind_text exp.kind) (str_append ":" exp.metadata_key)
    else kind_text exp.kind

unfoldable pub failed_check : ValidationExpectation → String → String → String → ValidationCheck
unfolding expectation_id severity safe_detail
failed_check exp expected observed detail = record {
  expectation_id = expectation_id exp;
  kind = exp.kind;
  severity = severity exp.severity;
  passed = false;
  skipped = false;
  expected = safe_detail expected;
  observed = safe_detail observed;
  detail = safe_detail detail;
  repair_hint = safe_detail exp.repair_hint;
}

unfoldable pub passed_check : ValidationExpectation → String → String → ValidationCheck
unfolding expectation_id severity safe_detail
passed_check exp expected observed = record {
  expectation_id = expectation_id exp;
  kind = exp.kind;
  severity = severity exp.severity;
  passed = true;
  skipped = false;
  expected = safe_detail expected;
  observed = safe_detail observed;
  detail = "";
  repair_hint = safe_detail exp.repair_hint;
}

abbrev custom_unless_set : ExpectationKind → ExpectationKind
custom_unless_set ExpectationKind.unset = ExpectationKind.custom
custom_unless_set k = k

unfoldable pub normalize_check : ValidationCheck → ValidationCheck
unfolding severity safe_detail
normalize_check check =
    let kind = custom_unless_set check.kind in
    record check {
      severity = severity check.severity;
      kind = kind;
      expectation_id =
          if is_empty check.expectation_id then kind_text kind else check.expectation_id;
      expected = safe_detail check.expected;
      observed = safe_detail check.observed;
      detail = safe_detail check.detail;
      repair_hint = safe_detail check.repair_hint;
    }
