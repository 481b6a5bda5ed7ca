-- ===== src/Validation/Runner/Execute/Ledger.antt =====
-- What happens in a validating run (validation.go), read off its calls: how the first run fails, and
-- which validations the rounds of the loop make.
use agentwrap.Prelude.{ℕ, zero, suc, Option, none, some, List, [], ◌∷◌, ◌++◌}
use agentwrap.Errors.{SdkError}
use agentwrap.Contract.{ValidationResult}
use agentwrap.Validation.Runner.State.{Environment, ValidationRun}
use agentwrap.Validation.Runner.Results.{first_sdk_error}
use agentwrap.Validation.Runner.Repair.{start_and_wait, validate}
use agentwrap.Validation.Runner.Execute.{Loop, Turn, ended, again, from_status, begun, round}

-- A validation that was not stopped by an error.
unfoldable pub completed : Option SdkError → ValidationResult → List ValidationResult
completed none v = v ∷ []
completed (some e) v = []

module _ {W : Type 0} (env : Environment W) where
  -- The validation at the head of a round.
  unfoldable pub validated : Loop → W → List ValidationResult
  unfolding completed
  validated l w =
      let (answer, w') = validate env l.run l.req l.result (from_status l.attempt) w in
      let (r, v, err) = answer in completed err v

  -- The validations of the rounds that follow.
  unfoldable pub validated_from : ℕ → Turn × W → List ValidationResult
  unfolding validated round
  validated_from fuel (ended r, w) = []
  validated_from zero (again l, w) = []
  validated_from (suc fuel) (again l, w) = validated l w ++ validated_from fuel (round env l w)

  -- The error of the first run.
  unfoldable pub first_failure : ValidationRun → W → Option SdkError
  first_failure r w =
      let (answered, w') = start_and_wait env r (record r.original { validation = none }) w in
      let (r', answer) = answered in let (result, err) = answer in first_sdk_error result.err err

  -- All validations of a run.
  unfoldable pub validations : ℕ → ValidationRun → W → List ValidationResult
  unfolding begun validated_from
  validations fuel r w =
      let req = record r.original { validation = none } in
      let (answered, w') = start_and_wait env r req w in
      let (r', answer) = answered in
      let (result, err) = answer in
      validated_from fuel (begun (first_sdk_error result.err err) r' req result, w')
