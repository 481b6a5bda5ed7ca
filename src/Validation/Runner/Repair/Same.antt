-- ===== src/Validation/Runner/Repair/Same.antt =====
-- What the parts of a validating run (validation.go) leave alone: its identity and its specification,
-- and what a repair's summary tells of it.
use agentwrap.Prelude.{ℕ, Time, ◌≡◌, refl, ◌∙◌, Bool, true, false, Option, none, some, ◌||◌, ◌&&◌}
use agentwrap.Errors.{SdkError, PlainError, sdk}
use agentwrap.Contract.{RunStatus, RunRequest, RunResult, ValidationResult, RepairAttemptSummary}
use agentwrap.Policy.Runner.State.{Started, refused, running}
use agentwrap.Validation.Runner.State.{Environment, Stream, ValidationRun, RepairContext}
use agentwrap.Validation.Runner.Results.{repair_request, repair_summary}
use agentwrap.Validation.Runner.Repair.{
  Answer, settle, start_and_wait, set_current, clear_current, report_validation, validate, conclude,
  finish_repair, fresh_repair, unsupported_repair, unsupported_error, unsupported_summary,
  after_repair, try_repair, announce_repair, run_repair, unsupported_continue, failed_continue,
}

pub record SameRun (r r' : ValidationRun) : Type 0 where
  pub id : r'.id ≡ r.id
  pub spec : r'.spec ≡ r.spec

-- A repair keeps the run, and its summary carries the number and the run of the repair.
pub record IsRepair (r : ValidationRun) (number : ℕ) (r' : ValidationRun)
    (summary : RepairAttemptSummary) : Type 0 where
  pub same : SameRun r r'
  pub attempt : summary.attempt ≡ number
  pub parent : summary.parent_run_id ≡ r.id

SameRun-trans : {a b c : ValidationRun} → SameRun a b → SameRun b c → SameRun a c
SameRun-trans s t = record { id = t.id ∙ s.id; spec = t.spec ∙ s.spec }

SameRun-stream : (r : ValidationRun) (s : Stream) → SameRun r (record r { stream = s })
SameRun-stream r s = record { id = refl; spec = refl }

module _ {W : Type 0} (env : Environment W) where
  settle-SameRun :
      (s : Started) (r : ValidationRun) (t : Time) (w : W) → SameRun r (settle env s r t w).0.0
  unfolding settle set_current clear_current
  settle-SameRun (refused err) r t w = record { id = refl; spec = refl }
  settle-SameRun (running h) r t w = record { id = refl; spec = refl }

  pub start_and_wait-SameRun :
      (r : ValidationRun) (req : RunRequest) (w : W) → SameRun r (start_and_wait env r req w).0.0
  unfolding start_and_wait
  start_and_wait-SameRun r req w = settle-SameRun _ r _ _

  report_validation-SameRun :
      (done : Option PlainError) (r : ValidationRun) (result : RunResult) (v : ValidationResult)
      (w : W)
      → SameRun r (report_validation env done r result v w).0.0
  unfolding report_validation
  report_validation-SameRun none r result v w = record { id = refl; spec = refl }
  report_validation-SameRun (some e) r result v w = record { id = refl; spec = refl }

  pub validate-SameRun :
      (r : ValidationRun) (req : RunRequest) (result : RunResult) (from : RunStatus) (w : W)
      → SameRun r (validate env r req result from w).0.0
  unfolding validate
  validate-SameRun r req result from w =
      SameRun-trans (SameRun-stream r _) (report_validation-SameRun _ _ _ _ _)

  conclude-IsRepair :
      (e : Option SdkError) (r0 r : ValidationRun) (attempt n : ℕ) (result : RunResult)
      (summary : RepairAttemptSummary) (w : W)
      → IsRepair r0 n r summary
      → IsRepair r0 n
          (conclude env e r attempt result summary w).0.0
          (conclude env e r attempt result summary w).0.2
  unfolding conclude
  conclude-IsRepair none r0 r attempt n result summary w i = record {
    same = record { id = i.same.id; spec = i.same.spec };
    attempt = i.attempt;
    parent = i.parent;
  }
  conclude-IsRepair (some e) r0 r attempt n result summary w i = record {
    same = record { id = i.same.id; spec = i.same.spec };
    attempt = i.attempt;
    parent = i.parent;
  }

  finish_repair-IsRepair :
      (a : Answer) (r0 r : ValidationRun) (attempt n : ℕ) (summary : RepairAttemptSummary) (w : W)
      → IsRepair r0 n r summary
      → IsRepair r0 n
          (finish_repair env r attempt a summary w).0.0
          (finish_repair env r attempt a summary w).0.2
  unfolding finish_repair
  finish_repair-IsRepair (result, none) r0 r attempt n summary w i =
      conclude-IsRepair none r0 r attempt n result summary w i
  finish_repair-IsRepair (result, some e) r0 r attempt n summary w i =
      conclude-IsRepair _ r0 r attempt n result summary w i

  fresh_repair-IsRepair :
      (unsupported : Bool) (r0 r : ValidationRun) (attempt : ℕ) (req : RunRequest) (started : Time)
      (w : W)
      → SameRun r0 r
      → IsRepair r0 attempt
          (fresh_repair env unsupported r attempt req started w).0.0
          (fresh_repair env unsupported r attempt req started w).0.2
  unfolding fresh_repair repair_summary
  fresh_repair-IsRepair unsupported r0 r attempt req started w s =
      let kept = start_and_wait-SameRun r _ w in
      finish_repair-IsRepair _ r0 _ attempt attempt _ _
        (record { same = SameRun-trans s kept; attempt = refl; parent = s.id })

  unsupported_repair-IsRepair :
      (r0 r : ValidationRun) (attempt : ℕ) (result : RunResult) (summary : RepairAttemptSummary)
      (w : W)
      → IsRepair r0 attempt r summary
      → IsRepair r0 attempt
          (unsupported_repair env r attempt result summary w).0.0
          (unsupported_repair env r attempt result summary w).0.2
  unfolding unsupported_repair unsupported_summary
  unsupported_repair-IsRepair r0 r attempt result summary w i =
      let e = unsupported_error result in
      finish_repair-IsRepair
        (record result { err = some e; status = RunStatus.failed }, some (sdk e)) r0 r attempt
        attempt (unsupported_summary summary e) w
        (record { same = i.same; attempt = i.attempt; parent = i.parent })

  after_repair-IsRepair :
      (falls_back unsupported : Bool) (r0 r : ValidationRun) (attempt : ℕ) (req : RunRequest)
      (started : Time) (a : Answer) (summary : RepairAttemptSummary) (w : W)
      → IsRepair r0 attempt r summary
      → IsRepair r0 attempt
          (after_repair env falls_back unsupported r attempt req started a summary w).0.0
          (after_repair env falls_back unsupported r attempt req started a summary w).0.2
  unfolding after_repair
  after_repair-IsRepair true unsupported r0 r attempt req started a summary w i =
      fresh_repair-IsRepair unsupported r0 r attempt req started w i.same
  after_repair-IsRepair false true r0 r attempt req started (result, err) summary w i =
      unsupported_repair-IsRepair r0 r attempt result summary w i
  after_repair-IsRepair false false r0 r attempt req started a summary w i =
      finish_repair-IsRepair a r0 r attempt attempt summary w i

  try_repair-IsRepair :
      (r0 r : ValidationRun) (attempt : ℕ) (req : RunRequest) (started : Time) (w : W)
      → SameRun r0 r
      → IsRepair r0 attempt
          (try_repair env r attempt req started w).0.0
          (try_repair env r attempt req started w).0.2
  unfolding try_repair repair_summary
  try_repair-IsRepair r0 r attempt req started w s =
      let (answered, w1) = start_and_wait env r req w in
      let (r1, answer) = answered in
      let (result, err) = answer in
      let (t, w2) = env.now w1 in
      let unsupported = unsupported_continue req result in
      let failed = failed_continue r.spec.repair req (result, err) in
      after_repair-IsRepair ((unsupported || failed) && r.spec.repair.allow_fresh_session_fallback)
        unsupported r0 r1 attempt req started (result, err)
        (repair_summary env attempt r.id req started t result) w2
        (record {
          same = SameRun-trans s (start_and_wait-SameRun r req w);
          attempt = refl;
          parent = s.id;
        })

  pub run_repair-IsRepair :
      (r : ValidationRun) (req : RunRequest) (c : RepairContext) (w : W)
      → IsRepair r c.attempt (run_repair env r req c w).0.0 (run_repair env r req c w).0.2
  unfolding run_repair announce_repair
  run_repair-IsRepair r req c w =
      let (repair_req, w1) = repair_request env req r.spec.repair c w in
      let (r1, w2) = announce_repair env r c w1 in
      let (started, w3) = env.now w2 in
      try_repair-IsRepair r r1 c.attempt repair_req started w3 (SameRun-stream r _)
