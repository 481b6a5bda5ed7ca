-- ===== src/Policy/Basic/Laws.antt =====
-- What BasicPolicy may decide, and when.
use agentwrap.Prelude.{
  ℕ, zero, suc, pos, ltb_ℤ, increment, Time, String, ◌≡◌, refl, true, false, Option, none, some,
  List, [], ◌∷◌, ◌&&◌, not, arith, length, is_none, Ensures, nothing, just, Ensures-if, and_left,
  and_right, and_middle, and_last, Returns, returned, Returns-if, Returns-Ensures,
}
use agentwrap.Errors.{is_rate_limit, SdkError, ErrorCategory, PlainError}
use agentwrap.Contract.{PolicyDecisionKind}
use agentwrap.Policy.Types.{FallbackAlternative, PolicyContext, PolicyDecision, at_int}
use agentwrap.Policy.Basic.{
  BasicPolicy, is_runtime_exit, time_exhausted, should_retry, should_fallback, can_retry, targets,
  has_fallback, fallback_to, fallback_or_stop, retry_for, decide_failure, decide_at, decide,
}

-- The three ways in which a decision of BasicPolicy comes about.
pub data Decided (p : BasicPolicy) (c : PolicyContext) : PolicyDecision → Type 0 where
  stops : {d : PolicyDecision} → d.kind ≡ PolicyDecisionKind.stop → Decided p c d
  retries :
      {d : PolicyDecision}
      → d.kind ≡ PolicyDecisionKind.retry
      → d.target_index ≡ c.target_index
      → should_retry p c ≡ true
      → can_retry p c ≡ true
      → time_exhausted p c ≡ false
      → Decided p c d
  falls_back :
      {d : PolicyDecision} (target : FallbackAlternative)
      → d.kind ≡ PolicyDecisionKind.fallback
      → d.target_index ≡ increment c.target_index
      → d.target ≡ some target
      → at_int (targets p c) c.target_index ≡ some target
      → should_fallback p c ≡ true
      → Decided p c d

fallback-Decided :
    (p : BasicPolicy) (c : PolicyContext) (reason : String) (o : Option FallbackAlternative)
    → should_fallback p c ≡ true
    → at_int (targets p c) c.target_index ≡ o
    → Ensures
        (Decided p c)
        (elim o [ none ↦ none | some target ↦ some (fallback_to c reason target) ])
unfolding fallback_to
fallback-Decided p c reason none sf e = nothing
fallback-Decided p c reason (some target) sf e = just (falls_back target refl refl refl e sf)

fallback_or_stop-Decided :
    (p : BasicPolicy) (c : PolicyContext) (reason : String)
    → Ensures (Decided p c) (fallback_or_stop p c reason)
unfolding fallback_or_stop
fallback_or_stop-Decided p c reason =
    Ensures-if (not (is_none c.err) && should_fallback p c && has_fallback p c)
      (λ t.
        fallback-Decided p c reason (at_int (targets p c) c.target_index)
          (and_middle (not (is_none c.err)) (should_fallback p c) (has_fallback p c) t) refl)
      (λ _. just (stops refl))

decide_failure-Decided :
    (p : BasicPolicy) (wall : Time) (c : PolicyContext) (err : SdkError)
    → Ensures (Decided p c) (decide_failure p wall c err)
unfolding decide_failure retry_for
decide_failure-Decided p wall c err =
    Ensures-if (time_exhausted p c) (λ _. just (stops refl))
      λ in_time.
        Ensures-if (is_rate_limit err.category && not p.retry_rate_limits)
          (λ _. fallback_or_stop-Decided p c "rate limit retry disabled")
          λ _.
            Ensures-if (is_runtime_exit err.category && has_fallback p c && should_fallback p c)
              (λ _. fallback_or_stop-Decided p c "runtime exit")
              λ _.
                Ensures-if (should_retry p c && can_retry p c)
                  (λ t. just (
                    retries {d = retry_for p wall c err} refl refl
                      (and_left (should_retry p c) (can_retry p c) t)
                      (and_right (should_retry p c) (can_retry p c) t) in_time))
                  (λ _. fallback_or_stop-Decided p c "retry exhausted")

at_error-Decided :
    (p : BasicPolicy) (wall : Time) (c : PolicyContext) (o : Option SdkError)
    → Ensures (Decided p c) (decide_at p wall c o)
unfolding decide_at
at_error-Decided p wall c none = just (stops refl)
at_error-Decided p wall c (some err) = decide_failure-Decided p wall c err

-- A decision of BasicPolicy comes about in one of three ways: it stops; it retries the same target,
-- where its retry test and the attempts on the target allow it and the time is not used up; or it
-- goes on to the next index, with the fallback that stands there, where its fallback test allows it.
pub decide-Decided :
    (p : BasicPolicy) (done : Option PlainError) (wall : Time) (c : PolicyContext)
    → Ensures (Decided p c) (decide p done wall c)
unfolding decide
decide-Decided p (some e) wall c = just (stops refl)
decide-Decided p none wall c = at_error-Decided p wall c c.err

at_int-some :
    {A : Type 0} (xs : List A) (i : ℕ)
    → ltb_ℤ (pos (suc i)) (pos (suc (length xs))) ≡ true
    → (x : A) × (at_int xs (pos i) ≡ some x)
at_int-some [] i h = ground arith
at_int-some (x ∷ xs) zero h = (x, refl)
at_int-some (x ∷ xs) (suc i) h = at_int-some xs i (ground arith)

target_exists :
    (p : BasicPolicy) (c : PolicyContext) (i : ℕ)
    → c.target_index ≡ pos i
    → has_fallback p c ≡ true
    → (x : FallbackAlternative) × (at_int (targets p c) c.target_index ≡ some x)
unfolding has_fallback
target_exists p c i h t = rw h (at_int-some (targets p c) i (rw h at t))

abbrev Anything : PolicyDecision → Type 0
Anything d = Unit {0}

module _ (p : BasicPolicy) (c : PolicyContext) (i : ℕ) (at_i : c.target_index ≡ pos i) where
  fallback_or_stop_total : (reason : String) → Returns Anything (fallback_or_stop p c reason)
  unfolding fallback_or_stop
  fallback_or_stop_total reason =
      Returns-if (not (is_none c.err) && should_fallback p c && has_fallback p c)
        (λ t.
          let found =
            target_exists p c i at_i
              (and_last (not (is_none c.err)) (should_fallback p c) (has_fallback p c) t) in
          rw found.1 (returned tt))
        (λ _. returned tt)

  decide_failure_total :
      (wall : Time) (err : SdkError) → Returns Anything (decide_failure p wall c err)
  unfolding decide_failure
  decide_failure_total wall err =
      Returns-if (time_exhausted p c) (λ _. returned tt)
        λ _.
          Returns-if (is_rate_limit err.category && not p.retry_rate_limits)
            (λ _. fallback_or_stop_total "rate limit retry disabled")
            λ _.
              Returns-if (is_runtime_exit err.category && has_fallback p c && should_fallback p c)
                (λ _. fallback_or_stop_total "runtime exit")
                λ _.
                  Returns-if (should_retry p c && can_retry p c) (λ _. returned tt)
                    (λ _. fallback_or_stop_total "retry exhausted")

  at_error_total : (wall : Time) (o : Option SdkError) → Returns Anything (decide_at p wall c o)
  unfolding decide_at
  at_error_total wall none = returned tt
  at_error_total wall (some err) = decide_failure_total wall err

  decide-Returns :
      (ctx_err : Option PlainError) (wall : Time) → Returns Anything (decide p ctx_err wall c)
  unfolding decide
  decide-Returns (some e) wall = returned tt
  decide-Returns none wall = at_error_total wall c.err

-- Where the target index is not negative, BasicPolicy does not panic, and what it returns comes
-- about in one of three ways: it stops; it retries the same target, where its retry test and the
-- attempts on the target allow it and the time is not used up; or it goes on to the next index, with
-- the fallback that stands there, where its fallback test allows it.
pub decide_total :
    (p : BasicPolicy) (ctx_err : Option PlainError) (wall : Time) (c : PolicyContext) (i : ℕ)
    → c.target_index ≡ pos i
    → Returns (Decided p c) (decide p ctx_err wall c)
decide_total p ctx_err wall c i h =
    Returns-Ensures (decide-Returns p c i h ctx_err wall) (decide-Decided p ctx_err wall c)

-- The categories that no attempt on another target or of the same kind can mend.
abbrev pub IsFinal : ErrorCategory → Type 0
IsFinal ErrorCategory.authentication = Unit {0}
IsFinal ErrorCategory.permission = Unit {0}
IsFinal ErrorCategory.configuration = Unit {0}
IsFinal ErrorCategory.cancellation = Unit {0}
IsFinal _ = ⊥

final_refused :
    (p : BasicPolicy) (c : PolicyContext) (e : SdkError) (cat : ErrorCategory)
    → e.category ≡ cat
    → IsFinal cat
    → p.should_retry_hook ≡ none
    → p.should_fallback_hook ≡ none
    → c.err ≡ some e
    → (should_retry p c ≡ false) × (should_fallback p c ≡ false)
unfolding should_retry should_fallback
final_refused p c e ErrorCategory.authentication h f r b x = ground arith
final_refused p c e ErrorCategory.permission h f r b x = ground arith
final_refused p c e ErrorCategory.configuration h f r b x = ground arith
final_refused p c e ErrorCategory.cancellation h f r b x = ground arith
final_refused p c e _ h f r b x = absurd f

abbrev pub IsStopFor : SdkError → PolicyDecision → Type 0
IsStopFor e d = (d.kind ≡ PolicyDecisionKind.stop) × (d.err ≡ some e)

stop_refused :
    (p : BasicPolicy) (c : PolicyContext) (e : SdkError) (reason : String)
    → should_fallback p c ≡ false
    → c.err ≡ some e
    → Returns (IsStopFor e) (fallback_or_stop p c reason)
unfolding fallback_or_stop
stop_refused p c e reason no_fallback h =
    Returns-if (not (is_none c.err) && should_fallback p c && has_fallback p c)
      (λ t. absurd (
        cc (
          no_fallback,
          and_middle (not (is_none c.err)) (should_fallback p c) (has_fallback p c) t,
        )))
      (λ _. returned (refl, h))

failure_stops :
    (p : BasicPolicy) (wall : Time) (c : PolicyContext) (e : SdkError)
    → should_retry p c ≡ false
    → should_fallback p c ≡ false
    → c.err ≡ some e
    → Returns (IsStopFor e) (decide_failure p wall c e)
unfolding decide_failure
failure_stops p wall c e no_retry no_fallback h =
    Returns-if (time_exhausted p c) (λ _. returned (refl, refl))
      λ _.
        Returns-if (is_rate_limit e.category && not p.retry_rate_limits)
          (λ _. stop_refused p c e "rate limit retry disabled" no_fallback h)
          λ _.
            Returns-if (is_runtime_exit e.category && has_fallback p c && should_fallback p c)
              (λ _. stop_refused p c e "runtime exit" no_fallback h)
              λ _.
                Returns-if (should_retry p c && can_retry p c)
                  (λ t. absurd (cc (no_retry, and_left (should_retry p c) (can_retry p c) t)))
                  (λ _. stop_refused p c e "retry exhausted" no_fallback h)

-- With the default tests and the context still active, an authentication, permission, configuration
-- or cancellation failure is neither retried nor handed to another target: the policy stops, and
-- reports the failure itself.
pub decide_final :
    (p : BasicPolicy) (wall : Time) (c : PolicyContext) (e : SdkError)
    → IsFinal e.category
    → p.should_retry_hook ≡ none
    → p.should_fallback_hook ≡ none
    → c.err ≡ some e
    → Returns (IsStopFor e) (decide p none wall c)
unfolding decide decide_at
decide_final p wall c e f r b h =
    let (no_retry, no_fallback) = final_refused p c e e.category refl f r b h in
    rw (h, decide_at) (failure_stops p wall c e no_retry no_fallback h)
