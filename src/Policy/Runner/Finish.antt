-- ===== src/Policy/Runner/Finish.antt =====
-- How a policy run ends (policy.go): `finish`, `finishCancelled`, and what Wait then returns.
use agentwrap.Prelude.{
  Time, Duration, is_zero_time, is_zero_int, sub_time, String, Bool, true, Option, none, some, ◌&&◌,
  not, is_empty, length, if◌then◌else◌,
}
use agentwrap.Errors.{SdkError, PlainError}
use agentwrap.Contract.{RunStatus, RunMetadata, RunResult}
use agentwrap.Policy.Types.{context_policy_error, first_time, final_target_index}
use agentwrap.Policy.Summary.{settled_status}
use agentwrap.Policy.Runner.State.{Environment, PolicyRun}

abbrev pub err_or : Option SdkError → Option SdkError → Option SdkError
err_or none old = old
err_or (some e) old = some e

-- The duration, unless there is one or an instant is missing.
abbrev pub duration_or : Duration → Time → Time → Duration
duration_or d started finished =
    if is_zero_int d && not (is_zero_time started) && not (is_zero_time finished)
    then sub_time finished started
    else d

-- The metadata of the final result.
final_metadata : PolicyRun → RunMetadata → Time → Time → Bool → String → RunMetadata
final_metadata r m started finished exhausted reason =
    let start = first_time m.started_at started in
    let end = first_time m.finished_at finished in
    record m {
      parent_run_id = r.id;
      attempt = length r.attempts;
      attempts = r.attempts;
      policy = record {
        logical_run_id = r.id;
        final_attempt = length r.attempts;
        final_target_index = final_target_index r.attempts;
        exhausted = exhausted;
        exhausted_reason = reason;
        decisions = r.decisions;
        dropped_events = r.stream.dropped;
      };
      started_at = start;
      finished_at = end;
      duration = duration_or m.duration start end;
    }

final_result : PolicyRun → RunResult → Option SdkError → Bool → String → RunResult
unfolding final_metadata
final_result r result err exhausted reason =
    let started = first_time result.started_at r.started in
    let finished = first_time result.finished_at r.finished in
    record result {
      run_id = if is_empty result.run_id then r.id else result.run_id;
      started_at = started;
      finished_at = finished;
      status = settled_status result.status err;
      err = err_or err result.err;
      metadata = final_metadata r result.metadata started finished exhausted reason;
    }

module _ {W : Type 0} (env : Environment W) where
  unfoldable pub finish :
      PolicyRun → RunResult → Option SdkError → Bool → String → W → PolicyRun × W
  unfolding final_result
  finish r result err exhausted reason w =
      let (t, w') = env.now w in
      let r' = record r { finished = t } in
      (
        record r' { result = some (final_result r' result err exhausted reason); wait_err = err },
        w',
      )

  -- finishCancelled; `done` is the context's error.
  unfoldable pub finish_cancelled : PolicyRun → RunResult → PlainError → W → PolicyRun × W
  finish_cancelled r last done w =
      let e = context_policy_error done in
      finish r (record last { status = RunStatus.cancelled; err = some e }) (some e) true
        "policy run cancelled" w
