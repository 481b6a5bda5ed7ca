-- ===== src/Observe/Run/Merge.antt =====
-- How observedRun (observability.go) merges a run's result into its record.
pub mod Ends
use agentwrap.Prelude.{
  ℕ, pos, is_positive, Time, is_zero_time, sub_time, Duration, String, Bool, true, false, ◌&&◌,
  ◌||◌, not, is_none, Option, none, some, or_default, List, [], ◌∷◌, ◌++◌, length, is_nil, is_empty,
  decimal, Table, find, insert, if◌then◌else◌, ◌≡◌, ◌≢◌, ◌↔◌, refl, Bool-cases, inl, inr, arith,
  zero, suc,
}
use agentwrap.Errors.{SdkError, GoError, sdk, StringMap}
use agentwrap.Dynamic.{AnyMap, no_fields, field}
use agentwrap.Events.Lifecycle.{action_text}
use agentwrap.Contract.{
  RunStatus, terminal, RunRequest, RunResult, Usage, RuntimeContext, is_default_action, zero_usage,
  zero_context,
}
use agentwrap.Policy.Types.{first_time}
use agentwrap.Observe.Records.{RunRecord, SinkFailure}
use agentwrap.Observe.Run.Artifacts.{entries, merge_artifacts}
use agentwrap.Observe.Run.Record.{is_unset}

-- reqParentRunID
unfoldable pub req_parent_run_id : RunRequest → String
req_parent_run_id req = or_default (find "parent_run_id" (entries req.metadata)) ""

summary_entry : Bool → String → String → Table String → Table String
unfolding insert
summary_entry wanted key value m = if wanted then insert key value m else m

none_if_empty : Table String → StringMap
none_if_empty [] = none
none_if_empty (e ∷ m) = some (e ∷ m)

-- effectiveConfigSummary; `show_duration` prints a time.Duration.
unfoldable pub effective_config_summary : (Duration → String) → RunRequest → StringMap
unfolding summary_entry none_if_empty
effective_config_summary show_duration req = none_if_empty (
    summary_entry (not (is_nil (entries req.metadata))) "metadata_keys"
      (decimal (length (entries req.metadata)))
      (summary_entry (not (is_default_action req.session_action)) "session_action"
        (action_text req.session_action)
        (summary_entry (is_positive req.timeout) "timeout" (show_duration req.timeout) (
          summary_entry (not (is_empty req.sandbox)) "sandbox" req.sandbox (
            summary_entry (not (is_empty req.permissions)) "permissions" req.permissions (
              summary_entry (not (is_empty req.model)) "model" req.model (
                summary_entry (not (is_empty req.provider)) "provider" req.provider
                  (summary_entry (not (is_empty req.work_dir)) "workdir" req.work_dir []))))))))

-- firstRunID
abbrev pub first_run_id : String → String → String
first_run_id primary fallback = if not (is_empty primary) then primary else fallback

-- firstContext
unfoldable pub first_context : RuntimeContext → RuntimeContext → RuntimeContext
first_context primary fallback =
    if not (is_empty primary.runtime_kind)
      || not (is_empty primary.runtime_name)
      || not (is_empty primary.provider)
      || not (is_empty primary.model)
    then primary
    else fallback

has_entries : AnyMap → Bool
has_entries no_fields = false
has_entries (field k v m) = true

unfoldable pub reports_usage : Usage → Bool
unfolding has_entries
reports_usage u =
    not (is_none u.input_tokens)
    || not (is_none u.output_tokens)
    || not (is_none u.total_tokens)
    || not (is_none u.reasoning_tokens)
    || not (is_none u.cache_read_tokens)
    || not (is_none u.cache_write_tokens)
    || not (is_none u.turns)
    || has_entries u.native

-- firstUsage
unfoldable pub first_usage : List Usage → Usage
unfolding reports_usage
first_usage [] = zero_usage
first_usage (u ∷ us) = let rest = first_usage us in if reports_usage u then u else rest

-- The first failure of a required observer.
unfoldable pub required_failure : List SinkFailure → Option SdkError
required_failure [] = none
required_failure (f ∷ fs) =
    let rest = required_failure fs in if f.required then some f.error else rest

first_error : Option SdkError → Option SdkError → Option GoError
first_error (some e) other = some (sdk e)
first_error none (some e) = some (sdk e)
first_error none none = none

-- mergeRequiredObserverError
unfoldable pub merge_required_observer_error : Option GoError → RunRecord → Option GoError
unfolding first_error required_failure
merge_required_observer_error (some primary) r = some primary
merge_required_observer_error none r =
    first_error (required_failure r.sink_failures) (required_failure r.store_failures)

-- The status of the record after the result, with the error that Wait returns.
unfoldable pub merged_status : Option GoError → RunResult → RunRecord → RunStatus
merged_status wait_err result r =
    let status = if is_unset result.status then r.status else result.status in
    if not (terminal status)
      && is_none result.err
      && is_none wait_err
      && not (is_zero_time result.finished_at)
    then RunStatus.completed
    else status

with_error : List SdkError → Option SdkError → List SdkError
with_error errors none = errors
with_error errors (some e) = errors ++ e ∷ []

-- observedRun.mergeResultLocked; `now` is read where the result has an end.
unfoldable pub merge_result : Option GoError → Time → RunResult → RunRecord → RunRecord
unfolding first_context first_usage merged_status merge_artifacts with_error
merge_result wait_err now result r =
    let started = first_time result.started_at r.started_at in
    let metadata = result.metadata in
    let ended = not (is_zero_time result.finished_at) in
    let own = record r {
      run_id = first_run_id result.run_id r.run_id;
      session_id = result.session_id;
      turn_id = result.turn_id;
      status = merged_status wait_err result r;
      started_at = started;
      finished_at = result.finished_at;
      completed_at = if ended then now else r.completed_at;
      duration = if ended then sub_time result.finished_at started else r.duration;
      context = first_context metadata.context r.context;
      parent_run_id = first_run_id metadata.parent_run_id r.parent_run_id;
      attempts = metadata.attempts;
      policy = metadata.policy;
      session = metadata.session;
      permissions = metadata.permissions;
      cleanup = metadata.cleanup;
      validation = metadata.validation;
      repair = metadata.repair;
    } in
    record own {
      artifacts = merge_artifacts r.artifacts result.artifacts metadata.artifacts own;
      warnings = result.warnings ++ metadata.warnings;
      errors = with_error metadata.errors result.err;
      usage = first_usage (metadata.usage ∷ result.usage ∷ r.usage ∷ []);
      estimated_cost = metadata.estimated_cost;
      cost_source = metadata.cost_source;
      throughput_tps = metadata.throughput_tps;
      native_metadata = metadata.native_metadata;
    }
