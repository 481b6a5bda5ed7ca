-- ===== src/Observe/Run/Forward/Waiting.antt =====
-- When Wait of an observed run (observability.go) returns no error.
use agentwrap.Prelude.{◌≡◌, ◌↔◌, none}
use agentwrap.Observe.Run.Merge.Ends.{NoneRequired, merge_required_observer_error_exact}
use agentwrap.Observe.Run.State.{Environment, ObservedRun}
use agentwrap.Observe.Run.Forward.{wait_run}

-- In any environment Wait of an observed run returns no error exactly if Wait of the inner run returns
-- none and no failure that the run's record has then is one of a required sink or store.
pub wait_run_exact :
    {W : Type 0} (env : Environment W) (r : ObservedRun) (w : W)
    → (wait_run env r w).0.0.1 ≡ none ↔ (
        ((env.wait r.inner w).0.1 ≡ none)
        × NoneRequired r.run_record.sink_failures
        × NoneRequired r.run_record.store_failures)
unfolding wait_run
wait_run_exact env r w = merge_required_observer_error_exact (env.wait r.inner w).0.1 r.run_record
