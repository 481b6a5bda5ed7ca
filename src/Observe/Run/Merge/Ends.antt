-- ===== src/Observe/Run/Merge/Ends.antt =====
-- What the merged record and the error of Wait say (observability.go).
use agentwrap.Prelude.{
  Time, is_zero_time, ◌≡◌, ◌↔◌, refl, ap, ◌∙◌, inl, inr, Bool, true, false, ◌&&◌, not, is_none,
  Bool-cases, Option, none, some, List, [], ◌∷◌, if◌then◌else◌,
}
use agentwrap.Errors.{GoError, SdkError}
use agentwrap.Contract.{RunStatus, terminal, RunResult}
use agentwrap.Observe.Records.{RunRecord, SinkFailure}
use agentwrap.Observe.Run.Record.{is_unset}
use agentwrap.Observe.Run.Merge.{
  required_failure, first_error, merge_required_observer_error, merged_status, merge_result,
}

-- None of the failures is of a required observer.
pub data NoneRequired : List SinkFailure → Type 0 where
  no_failures : NoneRequired []
  best_effort :
      {f : SinkFailure} {fs : List SinkFailure}
      → f.required ≡ false
      → NoneRequired fs
      → NoneRequired (f ∷ fs)

required_failure_exact : (fs : List SinkFailure) → required_failure fs ≡ none ↔ NoneRequired fs
unfolding required_failure
required_failure_exact [] = (λ _. no_failures, λ _. refl)
required_failure_exact (f ∷ fs) = elim (Bool-cases f.required) [
  | inl t ↦ (λ e. absurd (cc (rw t at e)), λ n. absurd (required n t))
  | inr n ↦ (
    λ e. best_effort n ((required_failure_exact fs).0 (rw n at e)),
    λ q. rw n ((required_failure_exact fs).1 (others q)),
  )
]
  where
    required : NoneRequired (f ∷ fs) → f.required ≡ true → ⊥
    required (best_effort n q) t = cc (n, t)

    others : NoneRequired (f ∷ fs) → NoneRequired fs
    others (best_effort n q) = q

first_error_exact : (a b : Option SdkError) → first_error a b ≡ none ↔ ((a ≡ none) × (b ≡ none))
unfolding first_error
first_error_exact none none = (λ _. (refl, refl), λ _. refl)
first_error_exact none (some e) = (λ h. absurd (cc h), λ p. absurd (cc p.1))
first_error_exact (some e) b = (λ h. absurd (cc h), λ p. absurd (cc p.0))

-- The merged error is none exactly if there is no error before and no failure in the record is one of
-- a required sink or store.
pub merge_required_observer_error_exact :
    (err : Option GoError) (r : RunRecord)
    → merge_required_observer_error err r ≡ none
      ↔ ((err ≡ none) × NoneRequired r.sink_failures × NoneRequired r.store_failures)
unfolding merge_required_observer_error
merge_required_observer_error_exact (some e) r = (λ h. absurd (cc h), λ p. absurd (cc p.0))
merge_required_observer_error_exact none r =
    let told =
      first_error_exact (required_failure r.sink_failures) (required_failure r.store_failures) in
    let sinks = required_failure_exact r.sink_failures in
    let stores = required_failure_exact r.store_failures in
    (
      λ h. let both = told.0 h in (refl, sinks.0 both.0, stores.0 both.1),
      λ p. told.1 (sinks.1 p.1, stores.1 p.2),
    )

reported :
    (status before : RunStatus)
    → terminal status ≡ true
    → (if is_unset status then before else status) ≡ status
unfolding terminal
reported RunStatus.unset before t = absurd (cc t)
reported _ before t = refl

left_so :
    (status final : RunStatus) (a b c : Bool)
    → status ≡ final
    → terminal final ≡ true
    → (if not (terminal status) && a && b && c then RunStatus.completed else status) ≡ final
left_so status final a b c e t =
    let ended : terminal status ≡ true = ap terminal e ∙ t in rw ended e

-- The status of a result that ends a run becomes the status of the record.
pub merge_result-reported :
    (wait_err : Option GoError) (now : Time) (result : RunResult) (r : RunRecord)
    → terminal result.status ≡ true
    → (merge_result wait_err now result r).status ≡ result.status
unfolding merge_result merged_status
merge_result-reported wait_err now result r t =
    left_so _ result.status (is_none result.err) (is_none wait_err)
      (not (is_zero_time result.finished_at)) (reported result.status r.status t) t
