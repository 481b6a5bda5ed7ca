-- ===== src/Examples/Validating.antt =====
-- A validating run whose one expectation is a file that appears after the first repair.
use agentwrap.Prelude.{
  ℕ, suc, ltb, pos, refl, true, false, inl, none, some, [], ◌∷◌, Returns, str_append, if◌then◌else◌,
}
use agentwrap.Contract.{
  RunStatus, SessionAction, ExpectationKind, ExpectationSeverity, ValidationExpectation,
  ValidationSpec, zero_request, zero_result,
}
use agentwrap.Validation.Checks.{passed_check}
use agentwrap.Policy.Runner.State.{Started, Offer}
use agentwrap.Validation.Runner.State.{Environment, ValidationContext, new_run}
use agentwrap.Validation.Runner.Execute.{Turn, execute}
use agentwrap.Validation.Runner.Execute.Ledger.{first_failure, validations}
use agentwrap.Validation.Runner.Execute.Outcome.{Settled}
use agentwrap.Validation.Runner.Execute.Ends.{execute-Settled}
use agentwrap.Validation.Expectations.{validate_expectation}
use agentwrap.Validation.Expectations.Pieces.{Passes}
use agentwrap.Validation.Expectations.Exact.{a_file, validate_expectation_exact}

abbrev report : ValidationExpectation
report = record {
  id = "report";
  kind = ExpectationKind.file;
  severity = ExpectationSeverity.required;
  path = "report.md";
  artifact_id = "";
  artifact_uri = "";
  template_path = "";
  metadata_key = "";
  required_fields = [];
  repair_hint = "write the report";
}

-- The world counts the runs that were started; the file is there after the second.
abbrev disk : Environment ℕ
disk = record {
  now = λ w. (100, w);
  wall = λ w. (100, w);
  ctx_err = λ w. (none, w);
  start_run = λ h r w. (Started.running h, suc w);
  run_events = λ h w. ([], w);
  run_wait = λ h w. ((record zero_result { status = RunStatus.completed }, none), w);
  offer = λ e w. (Offer.accepted, w);
  should_repair = λ h c w. (true, w);
  build_prompt = λ h c w. ("again", w);
  override_request = λ h c r w. (r, w);
  run_validator = λ h c w. (passed_check report "" "", w);
  stat = λ path w. (if ltb 1 w then some false else none, w);
  read_file = λ path w. (none, w);
  unmarshal = λ s. inl "not JSON";
  is_abs = λ path. false;
  join = λ a b. str_append a b;
  encode = λ s. none;
  patterns = record {
    secret_name = λ s. false;
    replace_bearer = λ s. s;
    replace_assignment = λ s. s;
  };
}

abbrev wanted : ValidationSpec
wanted = record {
  expectations = report ∷ [];
  validators = [];
  repair = record {
    max_attempts = pos 3;
    session_action = SessionAction.continue;
    allow_fresh_session_fallback = false;
    fresh_session_fallback_on_error = false;
    should_repair = none;
    build_prompt = none;
    override_request = none;
  };
}

abbrev in_work : ValidationContext
in_work = record { request = zero_request; result = zero_result; work_dir = "work/" }

execute-Settled_example :
    Returns
      (λ (a : Turn × ℕ).
        Settled
          (first_failure disk (new_run 7 wanted 1 100 zero_request) 0)
          3
          (validations disk 4 (new_run 7 wanted 1 100 zero_request) 0)
          a.0)
      (execute disk 4 (new_run 7 wanted 1 100 zero_request) 0)
unfolding new_run execute
execute-Settled_example = execute-Settled disk 7 wanted 1 100 zero_request 0

validate_expectation_exact_example : Passes (validate_expectation disk in_work report 2).0
validate_expectation_exact_example =
    (validate_expectation_exact disk in_work report 2).1 (refl, a_file refl)
