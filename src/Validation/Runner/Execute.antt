-- ===== src/Validation/Runner/Execute.antt =====
-- The loop of validationRun.execute (validation.go). The children hold what is proved of it.
pub mod Ledger
pub mod Outcome
pub mod Repairs
pub mod Ends
use agentwrap.Prelude.{
  ℕ, zero, suc, ◌==◌, ℤ, pos, is_positive, pos_part, ltb, leb, String, Bool, true, false, ◌&&◌,
  ◌||◌, not, Option, none, some, List, [], ◌∷◌, ◌++◌, length, is_empty, decimal, if◌then◌else◌,
}
use agentwrap.Errors.{ErrorCategory, SdkError, GoError, new_error}
use agentwrap.Redact.{with_metadata}
use agentwrap.Contract.{RunStatus, RunRequest, RunResult, ValidationResult, RepairAttemptSummary}
use agentwrap.Validation.Aggregate.{validation_error}
use agentwrap.Validation.Runner.State.{Environment, ValidationRun, RepairContext}
use agentwrap.Validation.Runner.Results.{
  first_sdk_error, status_for_error, append_sdk_error, reached, with_validation_metadata,
}
use agentwrap.Validation.Runner.Repair.{Answer, start_and_wait, validate, run_repair}

-- The variables of the loop.
pub record Loop : Type 0 where
  pub run : ValidationRun
  pub req : RunRequest
  pub result : RunResult
  pub attempt : ℕ
  pub history : List ValidationResult
  pub repairs : List RepairAttemptSummary

-- How a round ends: the run is finished, or another round follows.
pub data Turn : Type 0 where
  ended : ValidationRun → Turn
  again : Loop → Turn

-- The result that `finish` keeps.
unfoldable pub final_result : String → RunResult → Option SdkError → RunResult
final_result id result none = record result {
  run_id = if is_empty result.run_id then id else result.run_id;
  metadata = record result.metadata { parent_run_id = id; status = result.status };
}
final_result id result (some err) = record result {
  run_id = if is_empty result.run_id then id else result.run_id;
  err = some err;
  status = status_for_error (some err);
  metadata = record result.metadata {
    parent_run_id = id;
    status = status_for_error (some err);
    errors = append_sdk_error result.metadata.errors err;
  };
}

unfoldable pub finish : ValidationRun → RunResult → Option SdkError → ValidationRun
unfolding final_result
finish r result err = record r { result = some (final_result r.id result err); wait_err = err }

-- repairSummaries[i].Validation = validation
set_validation : List RepairAttemptSummary → ℕ → ValidationResult → List RepairAttemptSummary
set_validation [] i v = []
set_validation (s ∷ ss) zero v = record s { validation = v } ∷ ss
set_validation (s ∷ ss) (suc i) v = s ∷ set_validation ss i v

-- The repair before this round gets the round's validation.
unfoldable pub noted : ℕ → List RepairAttemptSummary → ValidationResult → List RepairAttemptSummary
unfolding set_validation
noted zero repairs v = repairs
noted (suc i) repairs v =
    if leb (suc i) (length repairs) then set_validation repairs i v else repairs

-- ctx.Attempt > MaxAttempts
abbrev pub beyond : ℕ → ℤ → Bool
beyond attempt (pos n) = ltb n attempt
beyond attempt (ℤ.negsuc n) = true

pub failed_run : Loop → RunResult → SdkError → RunStatus → ValidationRun
unfolding finish
failed_run l result err status =
    finish l.run
      (with_validation_metadata (record result { status = status; err = some err }) l.run.spec
        l.history l.repairs)
      (some err)

-- The end of a round that repaired.
repaired : Loop → RunResult → Option SdkError → Turn
unfolding failed_run
repaired l result (some err) = ended (failed_run l result err (status_for_error (some err)))
repaired l result none = again (record l { result = result; attempt = suc l.attempt })

pub repair_context : Loop → ValidationResult → RepairContext
repair_context l v = record {
  original_request = l.run.original;
  current_result = l.result;
  validation = v;
  attempt = suc l.attempt;
  max_attempts = l.run.spec.repair.max_attempts;
}

pub recorded : Loop → ValidationResult → Loop
recorded l v =
    let repairs = noted l.attempt l.repairs v in
    let history = l.history ++ v ∷ [] in
    record l {
      repairs = repairs;
      history = history;
      result = with_validation_metadata l.result l.run.spec history repairs;
    }

-- The first run, whose failure ends it all.
begun : Option SdkError → ValidationRun → RunRequest → RunResult → Turn
unfolding finish
begun (some e) r req result = ended (finish r result (some e))
begun none r req result =
    again (record { run = r; req = req; result = result; attempt = 0; history = []; repairs = [] })

abbrev from_status : ℕ → RunStatus
from_status zero = RunStatus.completed
from_status (suc n) = RunStatus.repairing

module _ {W : Type 0} (env : Environment W) where
  -- validationRun.shouldRepair
  unfoldable pub should_repair : ValidationRun → RepairContext → W → Bool × W
  should_repair r c w =
      if not (is_positive r.spec.repair.max_attempts) || beyond c.attempt r.spec.repair.max_attempts
      then (false, w)
      else elim r.spec.repair.should_repair [
        | none ↦ (true, w)
        | some hook ↦ env.should_repair hook c w
      ]

  -- The error of a run that is not repaired.
  unfoldable pub unrepaired_error :
      ValidationRun → List RepairAttemptSummary → ValidationResult → SdkError
  unrepaired_error r repairs v =
      if is_positive r.spec.repair.max_attempts
        && reached (length repairs) r.spec.repair.max_attempts
      then new_error ErrorCategory.repair_exhausted "validation repair"
          "validation repair attempts exhausted" none
          (with_metadata env.patterns
              (some (("max_attempts", decimal (pos_part r.spec.repair.max_attempts)) ∷ []))
            ∷ [])
      else validation_error env.patterns v

  pub decide_repair : Bool → Loop → RepairContext → ValidationResult → W → Turn × W
  unfolding repaired failed_run
  decide_repair false l c v w =
      (ended (failed_run l l.result (unrepaired_error l.run l.repairs v) RunStatus.failed), w)
  decide_repair true l c v w =
      let (answer, w') = run_repair env l.run l.req c w in
      let (r, result, summary, err) = answer in
      (repaired (record l { run = r; repairs = l.repairs ++ summary ∷ [] }) result err, w')

  -- A validation whose result stands in the history, and in the metadata of the loop's result.
  judge : Bool → Loop → ValidationResult → W → Turn × W
  unfolding decide_repair repair_context finish
  judge true l v w =
      (ended (finish l.run (record l.result { status = RunStatus.completed; err = none }) none), w)
  judge false l v w =
      let (go, w') = should_repair l.run (repair_context l v) w in
      decide_repair go l (repair_context l v) v w'

  follow : Option SdkError → Loop → ValidationResult → W → Turn × W
  unfolding judge failed_run recorded
  follow (some err) l v w = (ended (failed_run l l.result err (status_for_error (some err))), w)
  follow none l v w = judge v.passed (recorded l v) v w

  -- One round of the loop.
  unfoldable pub round : Loop → W → Turn × W
  unfolding follow
  round l w =
      let (answer, w') = validate env l.run l.req l.result (from_status l.attempt) w in
      let (r, v, err) = answer in follow err (record l { run = r }) v w'

  -- `none` where the fuel runs out.
  unfoldable pub rounds : ℕ → Turn × W → Option (Turn × W)
  unfolding round
  rounds fuel (ended r, w) = some (ended r, w)
  rounds zero (again l, w) = none
  rounds (suc fuel) (again l, w) = rounds fuel (round l w)

  -- validationRun.execute
  unfoldable pub execute : ℕ → ValidationRun → W → Option (Turn × W)
  unfolding begun rounds
  execute fuel r w =
      let req = record r.original { validation = none } in
      let (answered, w') = start_and_wait env r req w in
      let (r', answer) = answered in
      let (result, err) = answer in
      rounds fuel (begun (first_sdk_error result.err err) r' req result, w')
