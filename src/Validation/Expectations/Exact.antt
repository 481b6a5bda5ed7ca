-- ===== src/Validation/Expectations/Exact.antt =====
-- When the check of an expectation passes (validation.go).
use agentwrap.Prelude.{
  String, ◌≡◌, ◌≢◌, refl, ◌↔◌, inl, inr, true, false, Bool-cases, Option-cases, Option, none, some,
  [], ◌++◌, is_empty,
}
use agentwrap.Errors.{PlainError}
use agentwrap.Dynamic.{Any}
use agentwrap.Contract.{ExpectationKind, ValidationExpectation}
use agentwrap.Validation.Checks.{failed_check, passed_check}
use agentwrap.Validation.Headings.{InOrder}
use agentwrap.Validation.Markdown.{markdown_headings, unresolved_template_slots}
use agentwrap.Validation.Runner.State.{Environment, ValidationContext}
use agentwrap.Validation.Expectations.{
  artifact_check, found_or, validate_artifact, has_native_key, validate_metadata, resolve_path,
  validate_path, artifact_read, template_read, validate_markdown_template, json_read, validate_json,
  check_kind, check_unless, validate_expectation,
}
use agentwrap.Validation.Expectations.Pieces.{
  Passes, Referenced, FitsFields, artifact_check_sound, artifact_check_complete, path_check_exact,
  template_check_sound, template_check_complete, json_check_sound, json_check_complete,
}

module _ {W : Type 0} (env : Environment W) (c : ValidationContext) (exp : ValidationExpectation)
    (w : W) where
  -- What an expectation of each kind asks of the files, the run's result and the caller.
  pub data IsMet : ExpectationKind → Type 0 where
    a_file :
        (env.stat (resolve_path env c.work_dir exp.path) w).0 ≡ some false
        → IsMet ExpectationKind.file
    a_directory :
        (env.stat (resolve_path env c.work_dir exp.path) w).0 ≡ some true
        → IsMet ExpectationKind.directory
    referenced :
        Referenced exp (c.result.artifacts ++ c.result.metadata.artifacts)
        → IsMet ExpectationKind.artifact
    filled_in :
        (template artifact : String)
        → (env.read_file (resolve_path env c.work_dir exp.template_path) w).0 ≡ some template
        → (env.read_file
            (resolve_path env c.work_dir exp.path)
            (env.read_file (resolve_path env c.work_dir exp.template_path) w).1).0
          ≡ some artifact
        → markdown_headings template ≢ []
        → InOrder (markdown_headings template) (markdown_headings artifact)
        → unresolved_template_slots artifact ≡ []
        → IsMet ExpectationKind.markdown_template
    well_formed :
        (content : String) (value : Any) (shown : String)
        → (env.read_file (resolve_path env c.work_dir exp.path) w).0 ≡ some content
        → env.unmarshal content ≡ inr (value, shown)
        → FitsFields value exp.required_fields
        → IsMet ExpectationKind.json
    reported :
        is_empty exp.metadata_key ≡ false
        → has_native_key exp.metadata_key c.result.metadata.native_metadata ≡ true
        → IsMet ExpectationKind.metadata

module _ {W : Type 0} (env : Environment W) (c : ValidationContext) (exp : ValidationExpectation)
    (w : W) where
  markdown_sound :
      (template artifact : Option String)
      → (env.read_file (resolve_path env c.work_dir exp.template_path) w).0 ≡ template
      → (env.read_file
          (resolve_path env c.work_dir exp.path)
          (env.read_file (resolve_path env c.work_dir exp.template_path) w).1).0
        ≡ artifact
      → Passes (validate_markdown_template env exp c.work_dir w).0
      → IsMet env c exp w ExpectationKind.markdown_template
  unfolding validate_markdown_template template_read artifact_read failed_check
  markdown_sound none artifact t a h = absurd (cc (rw t at h))
  markdown_sound (some template) none t a h = absurd (cc (rw (t, a) at h))
  markdown_sound (some template) (some artifact) t a h =
      let told = template_check_sound exp _ _ artifact (rw (t, a) at h) in
      filled_in template artifact t a told.0 told.1 told.2

  kind_sound : (k : ExpectationKind) → Passes (check_kind env k c exp w).0 → IsMet env c exp w k
  unfolding check_kind validate_path validate_artifact validate_json json_read validate_metadata
      failed_check found_or
  kind_sound ExpectationKind.file h =
      a_file ((path_check_exact exp (resolve_path env c.work_dir exp.path) false _).0 h)
  kind_sound ExpectationKind.directory h =
      a_directory ((path_check_exact exp (resolve_path env c.work_dir exp.path) true _).0 h)
  kind_sound ExpectationKind.artifact h =
      elim (Option-cases (artifact_check exp (c.result.artifacts ++ c.result.metadata.artifacts))) [
        | inl e ↦ absurd (cc (rw e at h))
        | inr (check, e) ↦ referenced (artifact_check_sound exp _ check e).0
      ]
  kind_sound ExpectationKind.markdown_template h = markdown_sound _ _ refl refl h
  kind_sound ExpectationKind.json h =
      elim (Option-cases (env.read_file (resolve_path env c.work_dir exp.path) w).0) [
        | inl e ↦ absurd (cc (rw e at h))
        | inr (content, e) ↦
            let told =
              json_check_sound exp (resolve_path env c.work_dir exp.path) (env.unmarshal content)
                (rw e at h) in
            well_formed content told.0 told.1 e told.2 told.3
      ]
  kind_sound ExpectationKind.metadata h = elim (Bool-cases (is_empty exp.metadata_key)) [
    | inl e ↦ absurd (cc (rw e at h))
    | inr e ↦
        elim (Bool-cases (has_native_key exp.metadata_key c.result.metadata.native_metadata)) [
          | inl k ↦ reported e k
          | inr k ↦ absurd (cc (rw (e, k) at h))
        ]
  ]
  kind_sound _ h = absurd (cc h)

  markdown_complete :
      IsMet env c exp w ExpectationKind.markdown_template
      → Passes (validate_markdown_template env exp c.work_dir w).0
  unfolding validate_markdown_template template_read artifact_read
  markdown_complete (filled_in template artifact t a n i u) =
      rw (t, a) (template_check_complete exp _ (markdown_headings template) artifact n i u)

  kind_complete : (k : ExpectationKind) → IsMet env c exp w k → Passes (check_kind env k c exp w).0
  unfolding check_kind validate_path validate_artifact validate_json json_read validate_metadata
      passed_check found_or
  kind_complete _ (a_file e) =
      (path_check_exact exp (resolve_path env c.work_dir exp.path) false _).1 e
  kind_complete _ (a_directory e) =
      (path_check_exact exp (resolve_path env c.work_dir exp.path) true _).1 e
  kind_complete _ (referenced r) =
      elim (Option-cases (artifact_check exp (c.result.artifacts ++ c.result.metadata.artifacts))) [
        | inl e ↦ absurd (artifact_check_complete exp _ r e)
        | inr (check, e) ↦ rw e (artifact_check_sound exp _ check e).1
      ]
  kind_complete _ (filled_in template artifact t a n i u) =
      markdown_complete (filled_in template artifact t a n i u)
  kind_complete _ (well_formed content value shown e v f) =
      rw (e, v) (json_check_complete exp (resolve_path env c.work_dir exp.path) value shown f)
  kind_complete _ (reported e k) = rw (e, k) refl

module _ {W : Type 0} (env : Environment W) (c : ValidationContext)
    (exp : ValidationExpectation) where
  check_unless_exact :
      (err : Option PlainError) (w : W)
      → Passes (check_unless env err c exp w).0 ↔ ((err ≡ none) × IsMet env c exp w exp.kind)
  unfolding check_unless failed_check
  check_unless_exact none w =
      (λ h. (refl, kind_sound env c exp w exp.kind h), λ p. kind_complete env c exp w exp.kind p.1)
  check_unless_exact (some e) w = (λ h. absurd (cc h), λ p. absurd (cc p.0))

  -- The check of an expectation passes exactly if the caller has not ended the run and the
  -- files, the run's result and its metadata are what an expectation of this kind asks for.
  pub validate_expectation_exact :
      (w : W)
      → Passes (validate_expectation env c exp w).0
        ↔ (((env.ctx_err w).0 ≡ none) × IsMet env c exp (env.ctx_err w).1 exp.kind)
  unfolding validate_expectation
  validate_expectation_exact w = check_unless_exact _ _
