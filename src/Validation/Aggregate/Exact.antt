-- ===== src/Validation/Aggregate/Exact.antt =====
-- The result of aggregateValidation (validation.go) against what its checks say.
use mathlib.Core.List.{append_assoc, append-nil}
use agentwrap.Prelude.{
  ℕ, suc, ◌+◌, ◌≡◌, refl, sym, subst, ap, ◌∙◌, inl, inr, Bool, true, false, not, ◌&&◌, List, [],
  ◌∷◌, ◌++◌, arith, Bool-cases, length, length-append, is_nil, if◌then◌else◌,
}
use agentwrap.Errors.{SdkError}
use agentwrap.Redact.{Patterns}
use agentwrap.Contract.{ValidationCheck, ValidationFailure, ValidationResult}
use agentwrap.Validation.Checks.{severity_required, normalize_check, severity_required-severity}
use agentwrap.Validation.Aggregate.{
  failure_of, tally_one, tally, fresh_result, validation_error, with_error, with_skip,
  aggregate_validation,
}

-- The check failed, and it is not one that may.
unfoldable pub blocks : ValidationCheck → Bool
unfolding severity_required
blocks check = not check.skipped && not check.passed && severity_required check.severity

-- The failures of the checks that block, in their order.
pub blocking : List ValidationCheck → List ValidationFailure
unfolding blocks normalize_check failure_of
blocking [] = []
blocking (check ∷ checks) =
    let rest = blocking checks in
    if blocks check then failure_of (normalize_check check) ∷ rest else rest

blocks-normalize_check : (c : ValidationCheck) → blocks (normalize_check c) ≡ blocks c
unfolding blocks normalize_check
blocks-normalize_check c = rw (severity_required-severity c.severity) refl

-- What a part of the loop adds to a result: these failures, and this many checks.
record Tallied (fs : List ValidationFailure) (k : ℕ) (before after : ValidationResult)
    : Type 0 where
  passed : after.passed ≡ before.passed && is_nil fs
  failures : after.failures ≡ before.failures ++ fs
  failed : after.failed_count ≡ before.failed_count + length fs
  sum :
      after.passed_count + after.failed_count + after.skipped_count
      ≡ before.passed_count + before.failed_count + before.skipped_count + k
  skipped : after.skipped ≡ before.skipped
  errors : after.errors ≡ before.errors

failures_of_one : ValidationCheck → List ValidationFailure
failures_of_one n = if blocks n then failure_of n ∷ [] else []

and_true : (b : Bool) → b && true ≡ b
and_true true = refl
and_true false = refl

and_false : (b : Bool) → b && false ≡ false
and_false true = refl
and_false false = refl

is_nil-append : (fs gs : List ValidationFailure) → is_nil (fs ++ gs) ≡ is_nil fs && is_nil gs
is_nil-append [] gs = refl
is_nil-append (f ∷ fs) gs = refl

and_assoc : (a b c : Bool) → (a && b) && c ≡ a && (b && c)
and_assoc true b c = refl
and_assoc false b c = refl

passed_over :
    (r after : ValidationResult)
    → after.passed ≡ r.passed
    → after.failures ≡ r.failures
    → after.failed_count ≡ r.failed_count
    → after.passed_count + after.skipped_count ≡ suc (r.passed_count + r.skipped_count)
    → after.skipped ≡ r.skipped
    → after.errors ≡ r.errors
    → Tallied [] 1 r after
passed_over r after p f n s k e = record {
  passed = p ∙ sym (and_true r.passed);
  failures = f ∙ sym (append-nil r.failures);
  failed = omega arith;
  sum = omega arith;
  skipped = k;
  errors = e;
}

tally_one-Tallied :
    (n : ValidationCheck) (r : ValidationResult) → Tallied (failures_of_one n) 1 r (tally_one n r)
unfolding failures_of_one tally_one blocks
tally_one-Tallied n r = elim (Bool-cases n.skipped) [
  | inl s ↦ rw s (passed_over r _ refl refl refl (omega arith) refl refl)
  | inr s ↦ elim (Bool-cases n.passed) [
    | inl p ↦ rw (s, p) (passed_over r _ refl refl refl (omega arith) refl refl)
    | inr p ↦ elim (Bool-cases (severity_required n.severity)) [
      | inl q ↦
          rw (s, p, q)
            record {
              passed = sym (and_false r.passed);
              failures = refl;
              failed = omega arith;
              sum = omega arith;
              skipped = refl;
              errors = refl;
            }
      | inr q ↦ rw (s, p, q) (passed_over r _ refl refl refl (omega arith) refl refl)
    ]
  ]
]

Tallied-trans :
    {fs gs : List ValidationFailure} {k l m : ℕ} {a b c : ValidationResult}
    → Tallied fs k a b
    → Tallied gs l b c
    → m ≡ k + l
    → Tallied (fs ++ gs) m a c
Tallied-trans {fs} {gs} {k} {l} {m} {a} {b} {c} s t e = record {
  passed =
      t.passed
      ∙ ap (λ p. p && is_nil gs) s.passed
      ∙ and_assoc a.passed (is_nil fs) (is_nil gs)
      ∙ ap (λ p. a.passed && p) (sym (is_nil-append fs gs));
  failures = t.failures ∙ ap (λ xs. xs ++ gs) s.failures ∙ append_assoc a.failures fs gs;
  failed = omega (arith, s.failed, t.failed, length-append fs gs);
  sum = omega (arith, s.sum, t.sum);
  skipped = t.skipped ∙ s.skipped;
  errors = t.errors ∙ s.errors;
}

blocking-cons :
    (c : ValidationCheck) (cs : List ValidationCheck)
    → blocking (c ∷ cs) ≡ failures_of_one (normalize_check c) ++ blocking cs
unfolding blocking failures_of_one
blocking-cons c cs = elim (Bool-cases (blocks c)) [
  | inl b ↦ rw (blocks-normalize_check c, b) refl
  | inr b ↦ rw (blocks-normalize_check c, b) refl
]

tally-Tallied :
    (cs : List ValidationCheck) (r : ValidationResult)
    → Tallied (blocking cs) (length cs) r (tally cs r)
unfolding tally blocking
tally-Tallied [] r = record {
  passed = sym (and_true r.passed);
  failures = sym (append-nil r.failures);
  failed = omega arith;
  sum = omega arith;
  skipped = refl;
  errors = refl;
}
tally-Tallied (c ∷ cs) r =
    let n = normalize_check c in
    subst (λ fs. Tallied fs (length (c ∷ cs)) r (tally cs (tally_one n r)))
      (sym (blocking-cons c cs))
      (Tallied-trans (tally_one-Tallied n r) (tally-Tallied cs (tally_one n r)) (omega arith))

-- What a validation pass promises of its result.
pub record IsAggregate (checks : List ValidationCheck) (result : ValidationResult) : Type 0 where
  pub passed : result.passed ≡ is_nil (blocking checks)
  pub failures : result.failures ≡ blocking checks
  pub failed_count : result.failed_count ≡ length (blocking checks)
  pub sum :
      result.passed_count + result.failed_count + result.skipped_count
      ≡ (if is_nil checks then 1 else length checks)
  pub skipped : result.skipped ≡ is_nil checks
  pub errors : length result.errors ≡ (if result.passed then 0 else 1)

errors_if :
    (b : Bool) (r : ValidationResult) (e : SdkError)
    → r.errors ≡ []
    → (if b then r else record r { errors = e ∷ [] })
      ≡ record r { errors = if b then [] else e ∷ [] }
errors_if true r e none_yet = ap (λ es. record r { errors = es }) none_yet
errors_if false r e none_yet = refl

IsAggregate-with_error :
    (re : Patterns) (cs : List ValidationCheck) (r : ValidationResult)
    → IsAggregate cs (record r { errors = if r.passed then [] else validation_error re r ∷ [] })
    → r.errors ≡ []
    → IsAggregate cs (with_error re r)
unfolding with_error
IsAggregate-with_error re cs r a e =
    subst (IsAggregate cs) (sym (errors_if r.passed r (validation_error re r) e)) a

one_error : (p : Bool) (e : SdkError) → length (if p then [] else e ∷ []) ≡ (if p then 0 else 1)
one_error true e = refl
one_error false e = refl

with_skip-IsAggregate :
    (re : Patterns) (cs : List ValidationCheck) (r : ValidationResult)
    → Tallied (blocking cs) (length cs) (fresh_result cs) r
    → IsAggregate cs (with_error re (with_skip cs r))
unfolding with_skip blocking
with_skip-IsAggregate re [] r t =
    IsAggregate-with_error re [] (record r { skipped = true; skipped_count = 1 })
      record {
        passed = t.passed;
        failures = t.failures;
        failed_count = t.failed;
        sum = omega (arith, t.sum);
        skipped = refl;
        errors = one_error _ _;
      }
      t.errors
with_skip-IsAggregate re (c ∷ cs) r t =
    IsAggregate-with_error re (c ∷ cs) r
      record {
        passed = t.passed;
        failures = t.failures;
        failed_count = omega (arith, t.failed);
        sum = omega (arith, t.sum);
        skipped = t.skipped;
        errors = one_error _ _;
      }
      t.errors

-- The result passes exactly where no check blocks, a check blocking if it neither passed nor was
-- skipped and its severity is "required" or not set; the failures are the blocking checks', in their
-- order, as many as the failed count; each check is in one of the three counts, and no checks count
-- as one skipped; there is one error where the result does not pass, and else none.
pub aggregate_validation-IsAggregate :
    (re : Patterns) (checks : List ValidationCheck)
    → IsAggregate checks (aggregate_validation re checks)
unfolding aggregate_validation
aggregate_validation-IsAggregate re checks =
    with_skip-IsAggregate re checks (tally checks (fresh_result checks))
      (tally-Tallied checks (fresh_result checks))
