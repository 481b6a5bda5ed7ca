-- ===== src/Validation/Runner/Execute/Ends.antt =====
-- A validating run (validation.go) ends, and how: the rounds of its loop.
use mathlib.Core.List.{append_assoc, append-nil}
use agentwrap.Prelude.{
  ℕ, zero, suc, ◌<◌, ◌≡◌, refl, sym, subst, ap, ◌∙◌, pos_part, Time, String, Bool, true, false,
  Option, none, some, List, [], ◌∷◌, ◌++◌, arith, length-append, Returns, returned,
}
use agentwrap.Errors.{SdkError}
use agentwrap.Contract.{Handle, RunStatus, RunRequest, RunResult, ValidationResult, ValidationSpec}
use agentwrap.Validation.Runner.State.{Environment, ValidationRun, new_run}
use agentwrap.Validation.Runner.Results.{
  status_for_error, with_validation_metadata, with_validation_metadata-attempts, first_sdk_error,
}
use agentwrap.Validation.Runner.Repair.{start_and_wait, validate}
use agentwrap.Validation.Runner.Repair.Same.{start_and_wait-SameRun, validate-SameRun}
use agentwrap.Validation.Runner.Execute.{
  Loop, Turn, ended, again, should_repair, repair_context, judge, recorded, follow, from_status,
  round, rounds, begun, execute, failed_run, finish,
}
use agentwrap.Validation.Runner.Execute.Ledger.{
  completed, validated, validated_from, first_failure, validations,
}
use agentwrap.Validation.Runner.Execute.Outcome.{
  Numbered, Settled, At, Booked, never_validated, failed_run-Settled, passed_run-Settled,
  finish-Settled, noted-Numbered, length-noted,
}
use agentwrap.Validation.Runner.Execute.Repairs.{
  Booked-id, Next, Judged, Judged-Booked, should_repair_room, decide_repair-Next,
}

module _ {W : Type 0} (env : Environment W) where
  judge-Next :
      (b : Bool) (id : String) (max left : ℕ) (l : Loop) (before : List ValidationResult)
      (v : ValidationResult) (w : W)
      → v.passed ≡ b
      → Judged id max left l
      → l.history ≡ before ++ v ∷ []
      → l.result.metadata.validation.history ≡ l.history
      → l.result.metadata.repair.attempts ≡ l.repairs
      → Next id max left l.history (judge env b l v w).0
  unfolding judge
  judge-Next true id max left l before v w p j h th ta =
      subst
        (λ made. Settled none max made (
          ended (finish l.run (record l.result { status = RunStatus.completed; err = none }) none)))
        (sym h)
        (passed_run-Settled max l before v p
          (subst (λ hs. Booked l.run.id max hs l.repairs) h (Booked-id j.own_id (Judged-Booked j)))
          (th ∙ h) ta)
  judge-Next false id max left l before v w p j h th ta =
      let (go, w') = should_repair env l.run (repair_context l v) w in
      decide_repair-Next env go id max left l v w' j
        (should_repair_room env l.run (repair_context l v) w)

  follow-Next :
      (err : Option SdkError) (id : String) (max left : ℕ) (l : Loop) (v : ValidationResult) (w : W)
      → At id max left l
      → Next id max left (l.history ++ completed err v) (follow env err l v w).0
  unfolding follow recorded with_validation_metadata completed
  follow-Next (some e) id max left l v w a =
      subst
        (λ made.
          Settled none max made (ended (failed_run l l.result e (status_for_error (some e)))))
        (sym (append-nil l.history))
        (failed_run-Settled max l l.result e (status_for_error (some e)) (
          Booked-id a.own_id (record {
            numbered = a.numbered;
            bounded = omega (arith, a.repairs, a.room);
            repairs_le = omega (arith, a.repairs, a.history);
            le_repairs = omega (arith, a.repairs, a.history);
          })))
  follow-Next none id max left l v w a =
      judge-Next v.passed id max left (recorded l v) l.history v w refl
        (record {
          own_id = a.own_id;
          own_max = a.own_max;
          room = a.room;
          history = omega (arith, length-append {0} l.history (v ∷ []), a.history);
          repairs = omega (arith, length-noted l.attempt v l.repairs, a.repairs);
          numbered = noted-Numbered l.attempt v l.repairs a.numbered;
        })
        refl refl
        (with_validation_metadata-attempts l.result l.run.spec (recorded l v).history
          (recorded l v).repairs)

  round-Next :
      (id : String) (max left : ℕ) (l : Loop) (w : W)
      → At id max left l
      → Next id max left (l.history ++ validated env l w) (round env l w).0
  unfolding round validated
  round-Next id max left l w a =
      let from = from_status l.attempt in
      let (answer, w') = validate env l.run l.req l.result from w in
      let (r, v, err) = answer in
      let s = validate-SameRun env l.run l.req l.result from w in
      follow-Next err id max left (record l { run = r }) v w'
        (record {
          own_id = s.id ∙ a.own_id;
          own_max = ap (λ p. pos_part p.repair.max_attempts) s.spec ∙ a.own_max;
          room = a.room;
          history = a.history;
          repairs = a.repairs;
          numbered = a.numbered;
        })

  rounds-Settled :
      (fuel : ℕ) (id : String) (max left : ℕ) (made : List ValidationResult) (t : Turn) (w : W)
      → left < suc fuel
      → Next id max left made t
      → Returns
          (λ (a : Turn × W). Settled none max (made ++ validated_from env fuel (t, w)) a.0)
          (rounds env fuel (t, w))
  unfolding rounds validated_from
  rounds-Settled zero id max left made (ended r) w m h =
      returned (subst (λ vs. Settled none max vs (ended r)) (sym (append-nil made)) h)
  rounds-Settled (suc fuel) id max left made (ended r) w m h =
      returned (subst (λ vs. Settled none max vs (ended r)) (sym (append-nil made)) h)
  rounds-Settled zero id max left made (again l) w m h = absurd (omega (arith, h.1))
  rounds-Settled (suc fuel) id max left made (again l) w m h =
      let (t, w') = round env l w in
      let (n, lt, at, same) = h in
      let now_made = l.history ++ validated env l w in
      subst (λ vs. Returns (λ (a : Turn × W). Settled none max vs a.0) (rounds env fuel (t, w')))
        (append_assoc l.history (validated env l w) (validated_from env fuel (t, w'))
          ∙ ap (λ vs. vs ++ (validated env l w ++ validated_from env fuel (t, w'))) same)
        (rounds-Settled fuel id max n now_made t w' (omega (arith, lt))
          (round-Next id max n l w at))

  begun-Settled :
      (first : Option SdkError) (max : ℕ) (r : ValidationRun) (req : RunRequest)
      (result : RunResult) (w : W)
      → pos_part r.spec.repair.max_attempts ≡ max
      → Returns
          (λ (a : Turn × W).
            Settled first max (validated_from env (suc max) (begun first r req result, w)) a.0)
          (rounds env (suc max) (begun first r req result, w))
  unfolding begun rounds validated_from
  begun-Settled (some e) max r req result w m =
      returned (finish-Settled (some e) max [] r result e never_validated)
  begun-Settled none max r req result w m =
      rounds-Settled (suc max) r.id max (suc max) [] (begun none r req result) w (omega arith) (
        max,
        omega arith,
        record {
          own_id = refl;
          own_max = m;
          room = omega arith;
          history = refl;
          repairs = refl;
          numbered = Numbered.no_more;
        },
        refl,
      )

-- In any environment a validating run ends, in at most MaxAttempts repairs: max(0, MaxAttempts) + 1
-- rounds of its loop are enough. The result that Wait then returns carries the error that Wait
-- returns; its status, in the metadata too, is "completed" without an error, "cancelled" with a
-- cancellation, and else "failed". If the first run fails, its error is returned. Otherwise the
-- metadata list exactly the validations that were made and not stopped by an error, in order, and
-- the repairs, numbered from 1 and under this run's identity, no more than MaxAttempts, and as many
-- as the validations or one fewer; and there is no error only where the last validation passed.
pub execute-Settled :
    {W : Type 0} (env : Environment W) (runtime : Handle) (spec : ValidationSpec) (counter : ℕ)
    (started : Time) (req : RunRequest) (w : W)
    → let r = new_run runtime spec counter started req in
      let max = pos_part r.spec.repair.max_attempts in
      Returns
        (λ (a : Turn × W). Settled (first_failure env r w) max (validations env (suc max) r w) a.0)
        (execute env (suc max) r w)
unfolding execute first_failure validations
execute-Settled env runtime spec counter started req w =
    let r = new_run runtime spec counter started req in
    let inner = record r.original { validation = none } in
    let (answered, w') = start_and_wait env r inner w in
    let (r', answer) = answered in
    let (result, err) = answer in
    let same = start_and_wait-SameRun env r inner w in
    begun-Settled env (first_sdk_error result.err err) (pos_part r.spec.repair.max_attempts) r'
      inner result w' (ap (λ p. pos_part p.repair.max_attempts) same.spec)
