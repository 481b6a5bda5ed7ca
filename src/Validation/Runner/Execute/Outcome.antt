-- ===== src/Validation/Runner/Execute/Outcome.antt =====
-- How a validating run (validation.go) ends, and that it does.
use agentwrap.Prelude.{
  ℕ, zero, suc, ◌+◌, ◌≤◌, ◌≡◌, refl, sym, subst, ap, ◌∙◌, pos_part, leb, String, true, Bool-cases,
  inl, inr, Option, none, some, List, [], ◌∷◌, ◌++◌, arith, length, length-append, get_last?,
  get_last?-append,
}
use agentwrap.Errors.{SdkError}
use agentwrap.Contract.{RunStatus, RunResult, ValidationResult, RepairAttemptSummary}
use agentwrap.Validation.Runner.State.{ValidationRun}
use agentwrap.Validation.Runner.Results.{
  status_for_error, with_validation_metadata, with_validation_metadata-attempts,
}
use agentwrap.Validation.Runner.Execute.{
  Loop, Turn, ended, final_result, finish, noted, set_validation, failed_run, recorded,
}

-- The repairs are numbered from this one on, and made by this run.
pub data Numbered (id : String) : ℕ → List RepairAttemptSummary → Type 0 where
  no_more : {n : ℕ} → Numbered id n []
  and_next :
      {n : ℕ} {s : RepairAttemptSummary} {ss : List RepairAttemptSummary}
      → s.attempt ≡ n
      → s.parent_run_id ≡ id
      → Numbered id (suc n) ss
      → Numbered id n (s ∷ ss)

-- What the metadata of a result tell of repairs and of the validations that were made.
pub record Audited (id : String) (max : ℕ) (made : List ValidationResult) (result : RunResult)
    : Type 0 where
  pub validations : result.metadata.validation.history ≡ made
  pub numbered : Numbered id 1 result.metadata.repair.attempts
  pub bounded : length result.metadata.repair.attempts ≤ max
  pub repairs_le :
      length result.metadata.repair.attempts ≤ length result.metadata.validation.history
  pub le_repairs :
      length result.metadata.validation.history ≤ suc (length result.metadata.repair.attempts)

-- The three ways to end, by the error of the first run and that of the whole: the first run failed;
-- the last validation passed; or a validation was stopped or failed for good, or a repair failed.
pub data Verdict (id : String) (max : ℕ) (made : List ValidationResult) (result : RunResult)
    : Option SdkError → Option SdkError → Type 0 where
  never_validated : {e : SdkError} → Verdict id max made result (some e) (some e)
  passed :
      {v : ValidationResult}
      → Audited id max made result
      → get_last? made ≡ some v
      → v.passed ≡ true
      → Verdict id max made result none none
  unsuccessful :
      {e : SdkError} → Audited id max made result → Verdict id max made result none (some e)

pub record IsSettled (first : Option SdkError) (max : ℕ) (made : List ValidationResult)
    (r : ValidationRun) (result : RunResult) : Type 0 where
  pub stored : r.result ≡ some result
  pub err : result.err ≡ r.wait_err
  pub status : result.status ≡ status_for_error r.wait_err
  pub told_status : result.metadata.status ≡ result.status
  pub parent : result.metadata.parent_run_id ≡ r.id
  pub verdict : Verdict r.id max made result first r.wait_err

pub data Settled (first : Option SdkError) (max : ℕ) (made : List ValidationResult)
    : Turn → Type 0 where
  settled :
      {r : ValidationRun} (result : RunResult)
      → IsSettled first max made r result
      → Settled first max made (ended r)

-- The loop's variables at the head of a round, with `left` repairs to go.
pub record At (id : String) (max left : ℕ) (l : Loop) : Type 0 where
  pub own_id : l.run.id ≡ id
  pub own_max : pos_part l.run.spec.repair.max_attempts ≡ max
  pub room : l.attempt + left ≡ max
  pub history : length l.history ≡ l.attempt
  pub repairs : length l.repairs ≡ l.attempt
  pub numbered : Numbered id 1 l.repairs

pub Numbered-append :
    {id : String} {n m : ℕ} {ss : List RepairAttemptSummary} (s : RepairAttemptSummary)
    → Numbered id n ss
    → n + length ss ≡ m
    → s.attempt ≡ m
    → s.parent_run_id ≡ id
    → Numbered id n (ss ++ s ∷ [])
Numbered-append s no_more e a p = and_next (a ∙ omega (arith, sym e)) p no_more
Numbered-append s (and_next b q h) e a p = and_next b q (Numbered-append s h (omega (arith, e)) a p)

set_validation-Numbered :
    {id : String} {n : ℕ} {ss : List RepairAttemptSummary} (i : ℕ) (v : ValidationResult)
    → Numbered id n ss
    → Numbered id n (set_validation ss i v)
unfolding set_validation
set_validation-Numbered i v no_more = no_more
set_validation-Numbered zero v (and_next b q h) = and_next b q h
set_validation-Numbered (suc i) v (and_next b q h) = and_next b q (set_validation-Numbered i v h)

length-set_validation :
    (ss : List RepairAttemptSummary) (i : ℕ) (v : ValidationResult)
    → length (set_validation ss i v) ≡ length ss
unfolding set_validation
length-set_validation [] i v = refl
length-set_validation (s ∷ ss) zero v = refl
length-set_validation (s ∷ ss) (suc i) v = omega (arith, length-set_validation ss i v)

pub noted-Numbered :
    {id : String} (attempt : ℕ) (v : ValidationResult) (ss : List RepairAttemptSummary)
    → Numbered id 1 ss
    → Numbered id 1 (noted attempt ss v)
unfolding noted
noted-Numbered zero v ss h = h
noted-Numbered (suc i) v ss h = elim (Bool-cases (leb (suc i) (length ss))) [
  | inl e ↦ rw e (set_validation-Numbered i v h)
  | inr e ↦ rw e h
]

pub length-noted :
    (attempt : ℕ) (v : ValidationResult) (ss : List RepairAttemptSummary)
    → length (noted attempt ss v) ≡ length ss
unfolding noted
length-noted zero v ss = refl
length-noted (suc i) v ss = elim (Bool-cases (leb (suc i) (length ss))) [
  | inl e ↦ rw e (length-set_validation ss i v)
  | inr e ↦ rw e refl
]

-- What the lists of a run that ends must meet.
pub record Booked (id : String) (max : ℕ) (history : List ValidationResult)
    (repairs : List RepairAttemptSummary) : Type 0 where
  pub numbered : Numbered id 1 repairs
  pub bounded : length repairs ≤ max
  pub repairs_le : length repairs ≤ length history
  pub le_repairs : length history ≤ suc (length repairs)

Booked-Audited :
    (id : String) (max : ℕ) (result : RunResult) (history : List ValidationResult)
    (repairs : List RepairAttemptSummary)
    → result.metadata.validation.history ≡ history
    → result.metadata.repair.attempts ≡ repairs
    → Booked id max history repairs
    → Audited id max history result
Booked-Audited id max result history repairs h a b = record {
  validations = h;
  numbered = subst (Numbered id 1) (sym a) b.numbered;
  bounded = omega (arith, ap {B = ℕ} length a, b.bounded);
  repairs_le = omega (arith, ap {B = ℕ} length a, ap {B = ℕ} length h, b.repairs_le);
  le_repairs = omega (arith, ap {B = ℕ} length a, ap {B = ℕ} length h, b.le_repairs);
}

pub finish-Settled :
    (first : Option SdkError) (max : ℕ) (made : List ValidationResult) (r : ValidationRun)
    (result : RunResult) (err : SdkError)
    → Verdict r.id max made (final_result r.id result (some err)) first (some err)
    → Settled first max made (ended (finish r result (some err)))
unfolding finish final_result
finish-Settled first max made r result err v =
    settled (final_result r.id result (some err)) (record {
      stored = refl;
      err = refl;
      status = refl;
      told_status = refl;
      parent = refl;
      verdict = v;
    })

pub failed_run-Settled :
    (max : ℕ) (l : Loop) (result : RunResult) (err : SdkError) (status : RunStatus)
    → Booked l.run.id max l.history l.repairs
    → Settled none max l.history (ended (failed_run l result err status))
unfolding failed_run final_result with_validation_metadata
failed_run-Settled max l result err status b =
    let told =
      with_validation_metadata (record result { status = status; err = some err }) l.run.spec
        l.history l.repairs in
    finish-Settled none max l.history l.run told err (
      unsuccessful {e = err} (
        Booked-Audited l.run.id max (final_result l.run.id told (some err)) l.history l.repairs refl
          (with_validation_metadata-attempts (record result { status = status; err = some err })
            l.run.spec l.history l.repairs)
          b))

pub recorded-At :
    (id : String) (max left : ℕ) (l : Loop) (v : ValidationResult)
    → At id max left l
    → Booked id max (recorded l v).history (recorded l v).repairs
unfolding recorded
recorded-At id max left l v a = record {
  numbered = noted-Numbered l.attempt v l.repairs a.numbered;
  bounded = omega (arith, length-noted l.attempt v l.repairs, a.repairs, a.room);
  repairs_le = omega (
    arith,
    length-noted l.attempt v l.repairs,
    length-append {0} l.history (v ∷ []),
    a.repairs,
    a.history,
  );
  le_repairs = omega (
    arith,
    length-noted l.attempt v l.repairs,
    length-append {0} l.history (v ∷ []),
    a.repairs,
    a.history,
  );
}

pub passed_run-Settled :
    (max : ℕ) (l : Loop) (history : List ValidationResult) (v : ValidationResult)
    → v.passed ≡ true
    → Booked l.run.id max (history ++ v ∷ []) l.repairs
    → l.result.metadata.validation.history ≡ history ++ v ∷ []
    → l.result.metadata.repair.attempts ≡ l.repairs
    → Settled none max
        (history ++ v ∷ [])
        (ended (finish l.run (record l.result { status = RunStatus.completed; err = none }) none))
unfolding finish final_result
passed_run-Settled max l history v p b h a =
    settled
      (final_result l.run.id (record l.result { status = RunStatus.completed; err = none }) none)
      (record {
        stored = refl;
        err = refl;
        status = refl;
        told_status = refl;
        parent = refl;
        verdict =
            passed (Booked-Audited l.run.id max _ (history ++ v ∷ []) l.repairs h a b)
              (get_last?-append history v) p;
      })
