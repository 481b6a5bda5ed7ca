-- ===== src/Validation/Expectations/Pieces.antt =====
-- When the parts of the checks of validation.go pass.
use mathlib.Core.Option.{some-injective}
use agentwrap.Prelude.{
  String, ◌≡◌, ◌≢◌, refl, subst, ◌↔◌, ◌⊎◌, inl, inr, Bool, true, false, not, ◌&&◌, Bool-cases,
  Option-cases, Option, none, some, List, [], ◌∷◌, is_empty, str_eq, eq_iff,
}
use agentwrap.Dynamic.{Any, fields, AnyMap, lookup}
use agentwrap.Contract.{ArtifactRef, ValidationExpectation, ValidationCheck}
use agentwrap.Validation.Checks.{failed_check, passed_check}
use agentwrap.Validation.Headings.{InOrder, missing_in_order_exact}
use agentwrap.Validation.Markdown.{markdown_headings, unresolved_template_slots}
use agentwrap.Validation.Expectations.{
  artifact_check, missing_fields, missing_check, required_check, fields_check, json_check,
  missing_headings, unresolved_check, template_check, path_check,
}

abbrev pub Passes : ValidationCheck → Type 0
Passes check = check.passed ≡ true

-- One of the artifacts has the identity or the address that is expected.
pub data Referenced (exp : ValidationExpectation) : List ArtifactRef → Type 0 where
  by_id :
      {a : ArtifactRef} {artifacts : List ArtifactRef}
      → is_empty exp.artifact_id ≡ false
      → a.id ≡ exp.artifact_id
      → Referenced exp (a ∷ artifacts)
  by_uri :
      {a : ArtifactRef} {artifacts : List ArtifactRef}
      → is_empty exp.artifact_uri ≡ false
      → a.uri ≡ exp.artifact_uri
      → Referenced exp (a ∷ artifacts)
  later :
      {a : ArtifactRef} {artifacts : List ArtifactRef}
      → Referenced exp artifacts
      → Referenced exp (a ∷ artifacts)

-- Each of the fields is in the object.
pub data HasFields (obj : AnyMap) : List String → Type 0 where
  all_there : HasFields obj []
  and_field :
      {f : String} {fs : List String} {v : Any}
      → lookup f obj ≡ some v
      → HasFields obj fs
      → HasFields obj (f ∷ fs)

-- The value has the fields that are required; it need not be an object if there are none.
pub data FitsFields (value : Any) : List String → Type 0 where
  none_required : FitsFields value []
  object :
      {fs : List String} (obj : AnyMap)
      → value ≡ fields obj
      → HasFields obj fs
      → FitsFields value fs

and_sides : (a b : Bool) → (not a && b) ≡ true → (a ≡ false) × (b ≡ true)
and_sides false true h = (refl, refl)
and_sides false false h = absurd (cc h)
and_sides true b h = absurd (cc h)

and_true : (a b : Bool) → a ≡ false → b ≡ true → (not a && b) ≡ true
and_true a b p q = rw (p, q) refl

pub artifact_check_sound :
    (exp : ValidationExpectation) (artifacts : List ArtifactRef) (check : ValidationCheck)
    → artifact_check exp artifacts ≡ some check
    → Referenced exp artifacts × Passes check
unfolding artifact_check passed_check
artifact_check_sound exp [] check e = absurd (cc e)
artifact_check_sound exp (a ∷ rest) check e =
    elim (Bool-cases (not (is_empty exp.artifact_id) && str_eq a.id exp.artifact_id)) [
      | inl t ↦
          let sides = and_sides _ _ t in
          (
            by_id sides.0 ((eq_iff a.id exp.artifact_id).0 sides.1),
            found exp.artifact_id (rw t at e),
          )
      | inr f ↦
          elim (Bool-cases (not (is_empty exp.artifact_uri) && str_eq a.uri exp.artifact_uri)) [
            | inl t ↦
                let sides = and_sides _ _ t in
                (
                  by_uri sides.0 ((eq_iff a.uri exp.artifact_uri).0 sides.1),
                  found exp.artifact_uri (rw (f, t) at e),
                )
            | inr g ↦
                let more = artifact_check_sound exp rest check (rw (f, g) at e) in
                (later more.0, more.1)
          ]
    ]
  where
    found : (s : String) → some (passed_check exp s "referenced") ≡ some check → Passes check
    found s e = subst Passes (some-injective _ _ e) refl

pub artifact_check_complete :
    (exp : ValidationExpectation) (artifacts : List ArtifactRef)
    → Referenced exp artifacts
    → artifact_check exp artifacts ≢ none
unfolding artifact_check
artifact_check_complete exp [] r h = elim r [ ]
artifact_check_complete exp (a ∷ rest) (by_id n e) h =
    cc (rw (and_true _ _ n ((eq_iff a.id exp.artifact_id).1 e)) at h)
artifact_check_complete exp (a ∷ rest) (by_uri n e) h =
    elim (Bool-cases (not (is_empty exp.artifact_id) && str_eq a.id exp.artifact_id)) [
      | inl t ↦ cc (rw t at h)
      | inr f ↦ cc (rw (f, and_true _ _ n ((eq_iff a.uri exp.artifact_uri).1 e)) at h)
    ]
artifact_check_complete exp (a ∷ rest) (later r) h =
    elim (Bool-cases (not (is_empty exp.artifact_id) && str_eq a.id exp.artifact_id)) [
      | inl t ↦ cc (rw t at h)
      | inr f ↦
          elim (Bool-cases (not (is_empty exp.artifact_uri) && str_eq a.uri exp.artifact_uri)) [
            | inl t ↦ cc (rw (f, t) at h)
            | inr g ↦ artifact_check_complete exp rest r (rw (f, g) at h)
          ]
    ]

missing_fields_exact :
    (fs : List String) (obj : AnyMap) → missing_fields fs obj ≡ [] ↔ HasFields obj fs
unfolding missing_fields
missing_fields_exact [] obj = (λ _. all_there, λ _. refl)
missing_fields_exact (f ∷ fs) obj = elim (Option-cases (lookup f obj)) [
  | inl e ↦ (λ m. absurd (cc (rw e at m)), λ h. absurd (lacks e h))
  | inr (v, e) ↦ (
    λ m. and_field e ((missing_fields_exact fs obj).0 (rw e at m)),
    λ h. rw e ((missing_fields_exact fs obj).1 (others h)),
  )
]
  where
    lacks : lookup f obj ≡ none → HasFields obj (f ∷ fs) → ⊥
    lacks e (and_field h r) = cc (e, h)

    others : HasFields obj (f ∷ fs) → HasFields obj fs
    others (and_field h r) = r

pub path_check_exact :
    (exp : ValidationExpectation) (path : String) (want_dir : Bool) (info : Option Bool)
    → Passes (path_check exp path want_dir info) ↔ (info ≡ some want_dir)
unfolding path_check failed_check passed_check
path_check_exact exp path true none = (λ h. absurd (cc h), λ e. absurd (cc e))
path_check_exact exp path false none = (λ h. absurd (cc h), λ e. absurd (cc e))
path_check_exact exp path true (some true) = (λ _. refl, λ _. refl)
path_check_exact exp path true (some false) =
    (λ h. absurd (cc h), λ e. absurd (cc (some-injective _ _ e)))
path_check_exact exp path false (some true) =
    (λ h. absurd (cc h), λ e. absurd (cc (some-injective _ _ e)))
path_check_exact exp path false (some false) = (λ _. refl, λ _. refl)

missing_headings_exact :
    (exp : ValidationExpectation) (headings missing : List String) (otherwise : ValidationCheck)
    → Passes (missing_headings exp headings missing otherwise) ↔ ((missing ≡ []) × Passes otherwise)
unfolding missing_headings failed_check
missing_headings_exact exp hs [] o = (λ h. (refl, h), λ p. p.1)
missing_headings_exact exp hs (m ∷ ms) o = (λ h. absurd (cc h), λ p. absurd (cc p.0))

unresolved_check_exact :
    (exp : ValidationExpectation) (slots : List String) (otherwise : ValidationCheck)
    → Passes (unresolved_check exp slots otherwise) ↔ ((slots ≡ []) × Passes otherwise)
unfolding unresolved_check failed_check
unresolved_check_exact exp [] o = (λ h. (refl, h), λ p. p.1)
unresolved_check_exact exp (m ∷ ms) o = (λ h. absurd (cc h), λ p. absurd (cc p.0))

pub template_check_sound :
    (exp : ValidationExpectation) (path : String) (headings : List String) (artifact : String)
    → Passes (template_check exp path headings artifact)
    → (headings ≢ [])
      × InOrder headings (markdown_headings artifact)
      × (unresolved_template_slots artifact ≡ [])
unfolding template_check failed_check
template_check_sound exp path [] artifact h = absurd (cc h)
template_check_sound exp path (x ∷ xs) artifact h =
    let first = (missing_headings_exact exp (x ∷ xs) _ _).0 h in
    let second = (unresolved_check_exact exp _ _).0 first.1 in
    (λ e. cc e, (missing_in_order_exact (x ∷ xs) (markdown_headings artifact)).0 first.0, second.0)

pub template_check_complete :
    (exp : ValidationExpectation) (path : String) (headings : List String) (artifact : String)
    → headings ≢ []
    → InOrder headings (markdown_headings artifact)
    → unresolved_template_slots artifact ≡ []
    → Passes (template_check exp path headings artifact)
unfolding template_check passed_check
template_check_complete exp path [] artifact n i u = absurd (n refl)
template_check_complete exp path (x ∷ xs) artifact n i u =
    (missing_headings_exact exp (x ∷ xs) _ _).1 (
      (missing_in_order_exact (x ∷ xs) (markdown_headings artifact)).1 i,
      (unresolved_check_exact exp _ _).1 (u, refl),
    )

missing_check_exact :
    (exp : ValidationExpectation) (missing : List String) (p : ValidationCheck)
    → Passes p
    → Passes (missing_check exp missing p) ↔ (missing ≡ [])
unfolding missing_check failed_check
missing_check_exact exp [] p ok = (λ _. refl, λ _. ok)
missing_check_exact exp (m ∷ ms) p ok = (λ h. absurd (cc h), λ e. absurd (cc e))

required_check_exact :
    (exp : ValidationExpectation) (value : Any) (shown : String) (p : ValidationCheck)
    → Passes p
    → Passes (required_check exp (value, shown) p)
      ↔ ((obj : AnyMap) × (value ≡ fields obj) × HasFields obj exp.required_fields)
unfolding required_check failed_check
required_check_exact exp (fields obj) shown p ok =
    let told = missing_check_exact exp (missing_fields exp.required_fields obj) p ok in
    let there = missing_fields_exact exp.required_fields obj in
    (
      λ h. (obj, refl, there.0 (told.0 h)),
      λ q.
          let e : q.0 ≡ obj = cc q.1 in
          told.1 (there.1 (subst (λ o. HasFields o exp.required_fields) e q.2)),
    )
required_check_exact exp _ shown p ok = (λ h. absurd (cc h), λ q. absurd (cc q.1))

fields_check_exact :
    (exp : ValidationExpectation) (required : List String) (value : Any) (shown : String)
    (p : ValidationCheck)
    → required ≡ exp.required_fields
    → Passes p
    → Passes (fields_check exp required (value, shown) p) ↔ FitsFields value exp.required_fields
unfolding fields_check
fields_check_exact exp [] value shown p e ok =
    (λ _. subst (FitsFields value) e none_required, λ _. ok)
fields_check_exact exp (f ∷ fs) value shown p e ok =
    let told = required_check_exact exp value shown p ok in
    (λ h. let q = told.0 h in object q.0 q.1 q.2, λ q. told.1 (fitting e q))
  where
    fitting :
        {required : List String}
        → f ∷ fs ≡ required
        → FitsFields value required
        → (obj : AnyMap) × (value ≡ fields obj) × HasFields obj required
    fitting e none_required = absurd (cc e)
    fitting e (object obj o h) = (obj, o, h)

pub json_check_sound :
    (exp : ValidationExpectation) (path : String) (read : String ⊎ (Any × String))
    → Passes (json_check exp path read)
    → (value : Any) × (shown : String) × (read ≡ inr (value, shown))
      × FitsFields value exp.required_fields
unfolding json_check failed_check passed_check
json_check_sound exp path (inl e) h = absurd (cc h)
json_check_sound exp path (inr (value, shown)) h =
    (value, shown, refl, (fields_check_exact exp exp.required_fields value shown _ refl refl).0 h)

pub json_check_complete :
    (exp : ValidationExpectation) (path : String) (value : Any) (shown : String)
    → FitsFields value exp.required_fields
    → Passes (json_check exp path (inr (value, shown)))
unfolding json_check passed_check
json_check_complete exp path value shown f =
    (fields_check_exact exp exp.required_fields value shown _ refl refl).1 f
