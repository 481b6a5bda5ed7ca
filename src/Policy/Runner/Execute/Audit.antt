-- ===== src/Policy/Runner/Execute/Audit.antt =====
-- The books of a policy run: attempts are numbered, counted and reported whatever happens.
use agentwrap.Prelude.{
  ℕ, suc, ℤ, Time, String, ◌≡◌, refl, Bool, true, false, not, Option, none, some, List, arith,
  length, length-append, is_none, Ensures-some, is_positive, if◌then◌else◌,
}
use agentwrap.Errors.{SdkError, PlainError, GoError}
use agentwrap.Contract.{Handle, RunRequest, RunResult, PolicyDecisionKind}
use agentwrap.Policy.Types.{FallbackAlternative, PolicyContext, PolicyDecision}
use agentwrap.Policy.Runner.State.{Environment, Started, refused, running, PolicyRun, new_run}
use agentwrap.Policy.Requests.{normalize_decision}
use agentwrap.Policy.Summary.{summarize_attempt}
use agentwrap.Policy.Runner.Targets.{runtime_for, apply_decision_target}
use agentwrap.Policy.Runner.Attempt.{bump, settle, perform, keep_summary, policy_context}
use agentwrap.Policy.Runner.Finish.{finish, finish_cancelled, err_or}
use agentwrap.Policy.Runner.Execute.{
  Loop, first_loop, Turn, ended, again, round, execute, proceed, after_sleep, wait_and_proceed,
  stop_err, act, record_decision, follow, consult, attempt_round, guarded,
}
use agentwrap.Policy.Runner.Execute.Invariant.{TurnAll, rounds_inv}
use agentwrap.Policy.Runner.Execute.Books.{
  no_counts, Books, Numbered-snoc, CountedOn-snoc, tally-snoc, OwnedBy-snoc, bump_self, SameBooks,
  SameBooks-refl, Reported, InOrder,
}

module _ {W : Type 0} (env : Environment W) where
  settle_same :
      (answer : Started) (r : PolicyRun) (attempt : ℕ) (target_index : ℤ) (started : Time) (w : W)
      → SameBooks r (settle env answer r attempt target_index started w).0.0
  unfolding settle
  settle_same (refused e) r attempt target_index started w = SameBooks-refl
  settle_same (running h) r attempt target_index started w = record {
    same_id = refl;
    same_attempts = refl;
    same_decisions = refl;
    same_counts = refl;
    same_alternatives = refl;
  }

  pub perform_same :
      (r : PolicyRun) (attempt : ℕ) (target_index : ℤ) (req : RunRequest) (started : Time) (w : W)
      → SameBooks r (perform env r attempt target_index req started w).0.0
  unfolding perform
  perform_same r attempt target_index req started w =
      let (answer, w') = env.start_run (runtime_for r target_index) req w in
      settle_same answer r attempt target_index started w'

  finish-Reported :
      (r : PolicyRun) (result : RunResult) (err : Option SdkError) (exhausted : Bool)
      (reason : String) (w : W)
      → Books 0 r
      → err_or err result.err ≡ err
      → exhausted ≡ not (is_none err)
      → Reported (finish env r result err exhausted reason w).0
  unfolding finish
  finish-Reported r result err exhausted reason w b same told = record {
    books = record {
      numbered = b.numbered;
      counted = b.counted;
      tallied = b.tallied;
      owned = b.owned;
      decided = b.decided;
    };
    report = _;
    returned = refl;
    reports = record {
      attempts_told = refl;
      attempt_told = refl;
      final_attempt_told = refl;
      decisions_told = refl;
      dropped_told = refl;
      parent_told = refl;
      error_told = same;
      exhausted_told = told;
    };
  }

  -- With an error, `finish` reports it as the run's.
  failed_Reported :
      (r : PolicyRun) (result : RunResult) (e : SdkError) (reason : String) (w : W)
      → Books 0 r
      → Reported (finish env r result (some e) true reason w).0
  failed_Reported r result e reason w b =
      finish-Reported r result (some e) true reason w b refl refl

  Settled : Turn × W → Type 0
  Settled t = TurnAll InOrder Reported t.0

  proceed-Settled :
      (kind : PolicyDecisionKind) (l : Loop) (d : PolicyDecision) (w : W)
      → Books 0 l.run
      → Settled (proceed env kind l d w)
  unfolding Settled proceed apply_decision_target
  proceed-Settled PolicyDecisionKind.retry l d w b = b
  proceed-Settled PolicyDecisionKind.wait l d w b = b
  proceed-Settled PolicyDecisionKind.fallback l d w b = record {
    numbered = b.numbered;
    counted = b.counted;
    tallied = b.tallied;
    owned = b.owned;
    decided = b.decided;
  }
  proceed-Settled _ l d w b = failed_Reported l.run _ _ _ w b

  after_sleep-Settled :
      (e : Option PlainError) (l : Loop) (d : PolicyDecision) (w : W)
      → Books 0 l.run
      → Settled (after_sleep env e l d w)
  unfolding Settled after_sleep
  after_sleep-Settled none l d w b = unfold Settled in proceed-Settled d.kind l d w b
  after_sleep-Settled (some e) l d w b = failed_Reported l.run _ _ _ w b

  Settled-if : (b : Bool) (t u : Turn × W) → Settled t → Settled u → Settled (if b then t else u)
  Settled-if true t u ht hu = ht
  Settled-if false t u ht hu = hu

  wait_Settled :
      (l : Loop) (d : PolicyDecision) (w : W) → Books 0 l.run → Settled (wait_and_proceed env l d w)
  unfolding wait_and_proceed
  wait_Settled l d w b =
      let (e, w') = env.sleep d.delay w in
      Settled-if (is_positive d.delay) (after_sleep env e l d w') (after_sleep env none l d w)
        (after_sleep-Settled e l d w' b) (after_sleep-Settled none l d w b)

  act-Settled :
      (kind : PolicyDecisionKind) (l : Loop) (d : PolicyDecision) (w : W) (e : SdkError)
      → l.last.err ≡ some e
      → Books 0 l.run
      → Settled (act env kind l d w)
  unfolding Settled act
  act-Settled PolicyDecisionKind.stop l d w e h b =
      finish-Reported l.run _ (stop_err env d l.last) true d.reason w b (stopped_err d.err)
        (stop_told d.err)
    where
      stopped_err :
          (o : Option SdkError)
          → let s : Option SdkError = elim o [ none ↦ l.last.err | some x ↦ some x ] in
            err_or s s ≡ s
      stopped_err none = rw h refl
      stopped_err (some x) = refl

      stop_told :
          (o : Option SdkError)
          → let s : Option SdkError = elim o [ none ↦ l.last.err | some x ↦ some x ] in
            true ≡ not (is_none s)
      stop_told none = rw h refl
      stop_told (some x) = refl
  act-Settled _ l d w e h b = unfold Settled in wait_Settled l d w b

  recorded_Books :
      (r : PolicyRun) (attempt : ℕ) (target_index : ℤ) (d : PolicyDecision) (c : PolicyContext)
      (w : W)
      → Books 1 r
      → Books 0 (record_decision env r attempt target_index d c w).0
  unfolding record_decision
  recorded_Books r attempt target_index d c w b = record {
    numbered = b.numbered;
    counted = b.counted;
    tallied = b.tallied;
    owned = b.owned;
    decided = rw length-append (omega (arith, b.decided));
  }

  slacken : {r : PolicyRun} → Books 1 r → Books 0 r
  slacken b = record {
    numbered = b.numbered;
    counted = b.counted;
    tallied = b.tallied;
    owned = b.owned;
    decided = omega (arith, b.decided);
  }

  follow-Settled :
      (answer : Option (PolicyDecision × Option GoError)) (l : Loop) (attempt : ℕ)
      (c : PolicyContext) (w : W) (e : SdkError)
      → l.last.err ≡ some e
      → Books 1 l.run
      → Settled (follow env answer l attempt c w)
  unfolding follow
  follow-Settled none l attempt c w e h b = unfold Settled in tt
  follow-Settled (some (d, some x)) l attempt c w e h b =
      unfold Settled in failed_Reported l.run _ _ _ w (slacken b)
  follow-Settled (some (d, none)) l attempt c w e h b =
      let d' = normalize_decision d c in
      let (r, w') = record_decision env l.run attempt l.target_index d' c w in
      act-Settled d'.kind (record l { run = r }) d' w' e h
        (recorded_Books l.run attempt l.target_index d' c w b)

  consult-Settled :
      (err : Option SdkError) (l : Loop) (attempt attempt_on_target : ℕ) (w : W)
      → l.last.err ≡ err
      → Books 1 l.run
      → Settled (consult env err l attempt attempt_on_target w)
  unfolding consult
  consult-Settled none l attempt attempt_on_target w h b =
      unfold Settled in finish-Reported l.run l.last none false "" w (slacken b) h refl
  consult-Settled (some e) l attempt attempt_on_target w h b =
      let (c, w1) =
        policy_context env l.run attempt attempt_on_target l.target_index l.req l.last e w in
      let (answer, w2) = env.decide c w1 in follow-Settled answer l attempt c w2 e h b

  summary_Books :
      (r r1 : PolicyRun) (target_index : ℤ) (req : RunRequest) (started : Time) (last : RunResult)
      (w : W)
      → Books 0 r
      → SameBooks (record r { target_counts = bump r.target_counts target_index }) r1
      → Books 1
          (keep_summary env r1
            (suc (length r.attempts))
            (bump r.target_counts target_index target_index)
            target_index
            req
            started
            last
            w).0
  unfolding keep_summary summarize_attempt
  summary_Books r r1 target_index req started last w b s = record {
    numbered = rw s.same_attempts (Numbered-snoc 0 r.attempts _ b.numbered (omega arith));
    counted = rw s.same_attempts (
        CountedOn-snoc no_counts r.attempts _ b.counted
          (rw (bump_self r.target_counts target_index, b.tallied) refl));
    tallied =
        rw (s.same_attempts, s.same_counts) (rw (b.tallied, tally-snoc no_counts r.attempts) refl);
    owned = rw s.same_attempts (OwnedBy-snoc r1.id r.attempts _ (rw s.same_id b.owned) refl);
    decided = rw (s.same_attempts, s.same_decisions) (rw length-append (omega (arith, b.decided)));
  }

  attempt_Settled : (l : Loop) (w : W) → Books 0 l.run → Settled (attempt_round env l w)
  unfolding attempt_round
  attempt_Settled l w b =
      let r0 = record l.run { target_counts = bump l.run.target_counts l.target_index } in
      let attempt = suc (length r0.attempts) in
      let attempt_on_target = r0.target_counts l.target_index in
      let (started, w1) = env.now w in
      let (performed, w2) = perform env r0 attempt l.target_index l.req started w1 in
      let (r1, last) = performed in
      let (r2, w3) =
        keep_summary env r1 attempt attempt_on_target l.target_index l.req started last w2 in
      consult-Settled last.err (record l { run = r2; last = last }) attempt attempt_on_target w3
        refl
        (summary_Books l.run r1 l.target_index l.req started last w2 b
          (perform_same r0 attempt l.target_index l.req started w1))

  guarded-Settled :
      (e : Option PlainError) (l : Loop) (w : W) → Books 0 l.run → Settled (guarded env e l w)
  unfolding guarded
  guarded-Settled (some x) l w b =
      unfold Settled finish_cancelled in failed_Reported l.run _ _ _ w b
  guarded-Settled none l w b = attempt_Settled l w b

  round-Settled : (l : Loop) (w : W) → Books 0 l.run → Settled (round env l w)
  unfolding round
  round-Settled l w b = guarded-Settled _ l _ b

  -- Whenever a policy run ends, whatever its policy, runtimes and context do, its attempts are
  -- numbered 1, 2, 3, … and each carries its number among the attempts on its target, the counters
  -- agree with them, there are at most as many decisions as attempts, and the final result tells of
  -- exactly these attempts, decisions and dropped events. The result's error is the one that Wait
  -- returns, and it is marked exhausted exactly where there is one.
  pub execute-Reported :
      (primary : Handle) (alternatives : List FallbackAlternative) (counter : ℕ) (started : Time)
      (req : RunRequest) (fuel : ℕ) (w w' : W) (r : PolicyRun)
      → execute env fuel (new_run primary alternatives counter started req) w ≡ some (ended r, w')
      → Reported r
  unfolding execute new_run
  execute-Reported primary alternatives counter started req fuel w w' r h =
      Ensures-some
        (rounds_inv env InOrder Reported (λ l w b. unfold Settled in round-Settled l w b) fuel
          (again (first_loop (new_run primary alternatives counter started req))) w
          (record {
            numbered = tt;
            counted = tt;
            tallied = refl;
            owned = tt;
            decided = omega arith;
          }))
        h
