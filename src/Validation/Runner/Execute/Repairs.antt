-- ===== src/Validation/Runner/Execute/Repairs.antt =====
-- What the repair of a round leaves of a validating run (validation.go).
use agentwrap.Prelude.{
  ℕ, suc, ◌+◌, ◌-◌, ◌≤◌, ◌<◌, ◌≡◌, refl, sym, subst, ap, ◌∙◌, ℤ, pos, negsuc, pos_part, is_positive,
  String, Bool, true, false, not, ◌||◌, Bool-cases, inl, inr, Option, none, some, List, [], ◌∷◌,
  ◌++◌, arith, length, length-append,
}
use agentwrap.Errors.{SdkError}
use agentwrap.Contract.{RunStatus, RunResult, ValidationResult, RepairAttemptSummary}
use agentwrap.Validation.Runner.State.{Environment, ValidationRun, RepairContext}
use agentwrap.Validation.Runner.Repair.{run_repair}
use agentwrap.Validation.Runner.Repair.Same.{IsRepair, run_repair-IsRepair}
use agentwrap.Validation.Runner.Execute.{
  Loop, Turn, ended, again, should_repair, repaired, decide_repair, unrepaired_error,
  repair_context, beyond,
}
use agentwrap.Validation.Runner.Execute.Outcome.{
  Numbered, Settled, At, Booked, Numbered-append, failed_run-Settled,
}

pub Booked-id :
    {id id' : String} {max : ℕ} {h : List ValidationResult} {ss : List RepairAttemptSummary}
    → id' ≡ id
    → Booked id max h ss
    → Booked id' max h ss
Booked-id {id} {id'} {max} {h} {ss} e b = subst (λ i. Booked i max h ss) (sym e) b

-- After the validations `made`: the run has ended well, or fewer repairs are left.
abbrev pub Next : String → ℕ → ℕ → List ValidationResult → Turn → Type 0
Next id max left made (ended r) = Settled none max made (ended r)
Next id max left made (again l) = (n : ℕ) × (n < left) × At id max n l × (l.history ≡ made)

-- Between the validation of a round and its repair.
pub record Judged (id : String) (max left : ℕ) (l : Loop) : Type 0 where
  pub own_id : l.run.id ≡ id
  pub own_max : pos_part l.run.spec.repair.max_attempts ≡ max
  pub room : l.attempt + left ≡ max
  pub history : length l.history ≡ suc l.attempt
  pub repairs : length l.repairs ≡ l.attempt
  pub numbered : Numbered id 1 l.repairs

pub Judged-Booked :
    {id : String} {max left : ℕ} {l : Loop}
    → Judged id max left l
    → Booked id max l.history l.repairs
Judged-Booked j = record {
  numbered = j.numbered;
  bounded = omega (arith, j.repairs, j.room);
  repairs_le = omega (arith, j.repairs, j.history);
  le_repairs = omega (arith, j.repairs, j.history);
}

within_max : (n : ℕ) (m : ℤ) → beyond n m ≡ false → n ≤ pos_part m
within_max n (pos m) h = ground arith
within_max n (negsuc m) h = absurd (cc h)

grown-Booked :
    {id : String} {max left : ℕ} {l : Loop} {r : ValidationRun} (s : RepairAttemptSummary)
    → Judged id max left l
    → 0 < left
    → IsRepair l.run (suc l.attempt) r s
    → Booked id max l.history (l.repairs ++ s ∷ [])
grown-Booked {l} s j lt i = record {
  numbered =
      Numbered-append s j.numbered (omega (arith, j.repairs)) i.attempt (i.parent ∙ j.own_id);
  bounded = omega (arith, length-append {0} l.repairs (s ∷ []), j.repairs, j.room, lt);
  repairs_le = omega (arith, length-append {0} l.repairs (s ∷ []), j.repairs, j.history);
  le_repairs = omega (arith, length-append {0} l.repairs (s ∷ []), j.repairs, j.history);
}

repaired-Next :
    (id : String) (max left : ℕ) (l : Loop) (r : ValidationRun) (s : RepairAttemptSummary)
    (result : RunResult) (err : Option SdkError)
    → Judged id max left l
    → 0 < left
    → IsRepair l.run (suc l.attempt) r s
    → Next id max left l.history
        (repaired (record l { run = r; repairs = l.repairs ++ s ∷ [] }) result err)
unfolding repaired
repaired-Next id max left l r s result (some e) j lt i =
    failed_run-Settled max (record l { run = r; repairs = l.repairs ++ s ∷ [] }) result e _
      (Booked-id (i.same.id ∙ j.own_id) (grown-Booked s j lt i))
repaired-Next id max left l r s result none j lt i = (
  left - 1,
  omega (arith, lt),
  record {
    own_id = i.same.id ∙ j.own_id;
    own_max = ap (λ p. pos_part p.repair.max_attempts) i.same.spec ∙ j.own_max;
    room = omega (arith, j.room, lt);
    history = j.history;
    repairs = omega (arith, length-append {0} l.repairs (s ∷ []), j.repairs);
    numbered = (grown-Booked s j lt i).numbered;
  },
  refl,
)

or_false : (a b : Bool) → (a || b) ≡ false → b ≡ false
or_false true b h = absurd (cc h)
or_false false b h = h

module _ {W : Type 0} (env : Environment W) where
  pub should_repair_room :
      (r : ValidationRun) (c : RepairContext) (w : W)
      → (should_repair env r c w).0 ≡ true
      → c.attempt ≤ pos_part r.spec.repair.max_attempts
  unfolding should_repair
  should_repair_room r c w h =
      elim (Bool-cases (
        not (is_positive r.spec.repair.max_attempts)
        || beyond c.attempt r.spec.repair.max_attempts)) [
          | inl e ↦ absurd (cc (rw e at h))
          | inr e ↦ within_max c.attempt r.spec.repair.max_attempts (or_false _ _ e)
        ]

  pub decide_repair-Next :
      (go : Bool) (id : String) (max left : ℕ) (l : Loop) (v : ValidationResult) (w : W)
      → Judged id max left l
      → (go ≡ true → suc l.attempt ≤ pos_part l.run.spec.repair.max_attempts)
      → Next id max left l.history (decide_repair env go l (repair_context l v) v w).0
  unfolding decide_repair repair_context
  decide_repair-Next false id max left l v w j room =
      failed_run-Settled max l l.result (unrepaired_error env l.run l.repairs v) RunStatus.failed
        (Booked-id j.own_id (Judged-Booked j))
  decide_repair-Next true id max left l v w j room =
      let (answer, w') = run_repair env l.run l.req (repair_context l v) w in
      let (r, result, summary, err) = answer in
      repaired-Next id max left l r summary result err j
        (omega (arith, room refl, j.own_max, j.room))
        (run_repair-IsRepair env l.run l.req (repair_context l v) w)
