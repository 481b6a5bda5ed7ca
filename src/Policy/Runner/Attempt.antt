-- ===== src/Policy/Runner/Attempt.antt =====
-- One attempt of a policy run (policy.go): starting a runtime, forwarding its events, waiting for it,
-- and the summary that is kept.
use agentwrap.Prelude.{
  ℕ, suc, ℤ, pos, Time, is_zero_time, sub_time, Bool, false, Option, none, some, [], ◌∷◌, ◌++◌,
  ◌==◌, if◌then◌else◌,
}
use agentwrap.Errors.{SdkError, GoError}
use agentwrap.Contract.{Handle, RunStatus, RunRequest, RunResult, zero_result}
use agentwrap.Policy.Types.{PolicyContext, ensure_sdk_error}
use agentwrap.Policy.Summary.{rate_limit_from_result, validation_from_result, summarize_attempt}
use agentwrap.Policy.Runner.State.{Environment, Started, refused, running, PolicyRun}
use agentwrap.Policy.Runner.Stream.{forward_events}
use agentwrap.Policy.Runner.Targets.{runtime_for, target_for}

-- r.targetCounts[targetIndex]++
abbrev pub same_index : ℤ → ℤ → Bool
same_index (pos a) (pos b) = a == b
same_index (ℤ.negsuc a) (ℤ.negsuc b) = a == b
same_index _ _ = false

abbrev pub bump : (ℤ → ℕ) → ℤ → ℤ → ℕ
bump counts i j = if same_index i j then suc (counts j) else counts j

-- The result of an attempt that could not be started.
refused_result : GoError → Time → Time → RunResult
refused_result e started finished = record zero_result {
  status = RunStatus.failed;
  started_at = started;
  finished_at = finished;
  err = some (ensure_sdk_error e "policy attempt start");
}

-- The error of Wait, where the result has none itself.
with_wait_error : RunResult → Option SdkError → Option GoError → RunResult
with_wait_error r none (some e) = record r { err = some (ensure_sdk_error e "policy attempt wait") }
with_wait_error r _ _ = r

abbrev cleared : Option Handle → Handle → Option Handle
cleared none h = none
cleared (some c) h = if c == h then none else some c

-- clearCurrent, behind setCurrent
unfoldable pub set_current : PolicyRun → Handle → PolicyRun
set_current r h = record r { current = some h }

unfoldable pub clear_current : PolicyRun → Handle → PolicyRun
clear_current r h = record r { current = cleared r.current h }

module _ {W : Type 0} (env : Environment W) where
  unfoldable pub await : PolicyRun → ℕ → ℤ → Handle → W → (PolicyRun × RunResult) × W
  unfolding with_wait_error set_current clear_current
  await r attempt target_index h w =
      let r1 = set_current r h in
      let (events, w1) = env.run_events h w in
      let (stream, w2) = forward_events env r1.id attempt target_index events r1.stream w1 in
      let (answer, w3) = env.run_wait h w2 in
      let (result, wait_err) = answer in
      (
        (
          clear_current (record r1 { stream = stream }) h,
          with_wait_error result result.err wait_err,
        ),
        w3,
      )

  unfoldable pub settle : Started → PolicyRun → ℕ → ℤ → Time → W → (PolicyRun × RunResult) × W
  unfolding refused_result await
  settle (refused e) r attempt target_index started w =
      let (finished, w') = env.now w in ((r, refused_result e started finished), w')
  settle (running h) r attempt target_index started w = await r attempt target_index h w

  -- From the start of the runtime to its result.
  unfoldable pub perform : PolicyRun → ℕ → ℤ → RunRequest → Time → W → (PolicyRun × RunResult) × W
  unfolding settle
  perform r attempt target_index req started w =
      let (answer, w') = env.start_run (runtime_for r target_index) req w in
      settle answer r attempt target_index started w'

  finished_instant : RunResult → W → Time × W
  finished_instant result w =
      if is_zero_time result.finished_at then env.now w else (result.finished_at, w)

  -- The attempt's summary is appended to those before it.
  unfoldable pub keep_summary :
      PolicyRun → ℕ → ℕ → ℤ → RunRequest → Time → RunResult → W → PolicyRun × W
  unfolding finished_instant
  keep_summary r attempt attempt_on_target target_index req started result w =
      let (finished, w') = finished_instant result w in
      (
        record r {
          attempts =
              r.attempts
              ++ summarize_attempt r.id attempt attempt_on_target target_index req started result
                  finished
                ∷ [];
        },
        w',
      )

  -- The literal of the policy's input, whose elapsed time is the clock's.
  unfoldable pub policy_context :
      PolicyRun → ℕ → ℕ → ℤ → RunRequest → RunResult → SdkError → W → PolicyContext × W
  policy_context r attempt attempt_on_target target_index req last err w =
      let (t, w') = env.now w in
      (
        record {
          original_request = r.original;
          current_request = req;
          attempt = attempt;
          attempt_on_target = attempt_on_target;
          target_index = target_index;
          target = target_for r target_index;
          alternatives = r.alternatives;
          prior_attempts = r.attempts;
          current_result = last;
          err = some err;
          rate_limit = rate_limit_from_result last;
          validation = validation_from_result last;
          started_at = r.started;
          elapsed = sub_time t r.started;
          metadata = r.original.metadata;
        },
        w',
      )
