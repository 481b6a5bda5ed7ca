-- ===== src/Cache/Exact.antt =====
-- Which prompt cache directives are accepted (cache.go).
use agentwrap.Prelude.{
  ltb, is_positive, pos_part, String, ◌≡◌, ◌≢◌, ◌↔◌, ◌⊎◌, inl, inr, refl, Bool, true, false, not,
  Option, none, is_empty, str_eq, if◌then◌else◌,
}
use agentwrap.Errors.{SdkError}
use agentwrap.Contract.{PromptCacheDirective, enabled}
use agentwrap.Validation.Checks.{trim_space, byte_length}
use agentwrap.Cache.{
  Library, is_digest, cache_error, digest_of, hash_of, validate_prompt_cache_directive,
}

-- The test of a sequence of tests that leads to an error.
guard_exact :
    (b : Bool) (error rest : Option SdkError)
    → error ≢ none
    → (if b then error else rest) ≡ none ↔ ((b ≡ false) × (rest ≡ none))
guard_exact true error rest bad = (λ h. absurd (bad h), λ p. absurd (cc p.0))
guard_exact false error rest bad = (λ h. (refl, h), λ p. p.1)

cache_error-some : (detail : String) → cache_error detail ≢ none
unfolding cache_error
cache_error-some detail e = cc e

-- Six tests, each of which leads to an error.
guards_exact :
    (a b c d e f : Bool) (u v w x y z : String)
    → (if a
          then cache_error u
          else if b
          then cache_error v
          else if c
          then cache_error w
          else if d
          then cache_error x
          else if e
          then cache_error y
          else if f
          then cache_error z
          else none)
        ≡ none
      ↔ ((a ≡ false) × (b ≡ false) × (c ≡ false) × (d ≡ false) × (e ≡ false) × (f ≡ false))
guards_exact a b c d e f u v w x y z = (
  λ h.
      let one = (guard_exact a _ _ (cache_error-some u)).0 h in
      let two = (guard_exact b _ _ (cache_error-some v)).0 one.1 in
      let three = (guard_exact c _ _ (cache_error-some w)).0 two.1 in
      let four = (guard_exact d _ _ (cache_error-some x)).0 three.1 in
      let five = (guard_exact e _ _ (cache_error-some y)).0 four.1 in
      let six = (guard_exact f _ _ (cache_error-some z)).0 five.1 in
      (one.0, two.0, three.0, four.0, five.0, six.0),
  λ p. rw (p.0, p.1, p.2, p.3, p.4, p.5) refl,
)

second_one {ℓ} : {P : Type ℓ} → (true ≡ false) ⊎ P → P
second_one (inl e) = absurd (cc e)
second_one (inr p) = p

in_use_exact {ℓ} :
    {P : Type ℓ} (used : Bool) (rest : Option SdkError)
    → (rest ≡ none ↔ P)
    → (if not used then none else rest) ≡ none ↔ ((used ≡ false) ⊎ P)
in_use_exact false rest exact = (λ _. inl refl, λ _. refl)
in_use_exact true rest exact = (λ h. inr (exact.0 h), λ p. exact.1 (second_one p))

module _ (lib : Library) where
  -- The directive describes the prefix of the prompt that it is for.
  pub record Describes (prompt : String) (d : PromptCacheDirective) : Type 0 where
    keyed : is_empty (trim_space d.key) ≡ false
    moded : is_empty (trim_space d.mode) ≡ false
    positive : not (is_positive d.breakpoint_bytes) ≡ false
    inside : ltb (byte_length prompt) (pos_part d.breakpoint_bytes) ≡ false
    formed : not (is_digest (digest_of lib d)) ≡ false
    matching : not (str_eq (digest_of lib d) (hash_of lib prompt d)) ≡ false

  -- A directive is accepted for a prompt exactly if it is not in use, or has a key and a mode, ends
  -- inside the prompt, and its digest is 64 hexadecimal digits, those of the prompt's prefix.
  pub validate_prompt_cache_directive_exact :
      (prompt : String) (d : PromptCacheDirective)
      → validate_prompt_cache_directive lib prompt d ≡ none
        ↔ ((enabled d ≡ false) ⊎ Describes prompt d)
  unfolding validate_prompt_cache_directive
  validate_prompt_cache_directive_exact prompt d =
      let tests =
        guards_exact (is_empty (trim_space d.key)) (is_empty (trim_space d.mode))
          (not (is_positive d.breakpoint_bytes))
          (ltb (byte_length prompt) (pos_part d.breakpoint_bytes))
          (not (is_digest (digest_of lib d)))
          (not (str_eq (digest_of lib d) (hash_of lib prompt d))) _ _ _ _ _ _ in
      in_use_exact (enabled d) _ (
        λ h.
            let t = tests.0 h in
            record {
              keyed = t.0;
              moded = t.1;
              positive = t.2;
              inside = t.3;
              formed = t.4;
              matching = t.5;
            },
        λ p. tests.1 (p.keyed, p.moded, p.positive, p.inside, p.formed, p.matching),
      )
