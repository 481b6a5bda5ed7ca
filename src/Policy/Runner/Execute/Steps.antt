-- ===== src/Policy/Runner/Execute/Steps.antt =====
-- Where the loop of a policy run stands, and what each step of a round leaves of the attempts that
-- it may still make.
use agentwrap.Prelude.{
  ℕ, suc, ◌+◌, ◌*◌, ◌-◌, ◌≤◌, ◌<◌, ℤ, pos, is_positive, increment, Time, ◌≡◌, sym, ap, subst, ◌∙◌,
  Bool, true, false, Option, none, some, List, arith, length, length-append, is_nil, get_elem?_lt,
  Bool-cases, inl, inr, Returns, returned, if◌then◌else◌,
}
use agentwrap.Errors.{PlainError}
use agentwrap.Contract.{RunRequest, RunResult, PolicyDecisionKind}
use agentwrap.Policy.Types.{FallbackAlternative, PolicyContext, PolicyDecision, at_int}
use agentwrap.Policy.Basic.{BasicPolicy, targets}
use agentwrap.Policy.Basic.Laws.{Decided, stops, retries, falls_back}
use agentwrap.Policy.Requests.{normalize_decision, or_kind}
use agentwrap.Policy.Runner.State.{Environment, PolicyRun}
use agentwrap.Policy.Runner.Targets.{store_at, apply_decision_target}
use agentwrap.Policy.Runner.Attempt.{bump, keep_summary}
use agentwrap.Policy.Runner.Finish.{finish}
use agentwrap.Policy.Runner.Execute.{
  Loop, Turn, ended, panicked, again, proceed, after_sleep, wait_and_proceed, act, record_decision,
  follow,
}
use agentwrap.Policy.Runner.Execute.Invariant.{TurnSure}
use agentwrap.Policy.Runner.Execute.Books.{SameBooks, bump_self}
use agentwrap.Policy.Runner.Execute.Limits.{
  per_target, can_retry_lt, length-store_at, per_target_pos, product_step,
}

-- The bound is on `targets_left` fallbacks beside the primary target.
module _ {W : Type 0} (env : Environment W) (p : BasicPolicy) (fallback_count : ℕ) where
  abbrev pub limit : ℕ
  limit = per_target p.max_attempts_per_target

  abbrev pub total : ℕ
  total = suc fallback_count * limit

  -- Where the policy has no fallbacks of its own, the runner's alternatives are the targets.
  abbrev pub Covers : List FallbackAlternative → Type 0
  Covers alternatives =
      length (if is_nil p.fallbacks then alternatives else p.fallbacks) ≡ fallback_count

  abbrev pub Attempted : PolicyRun → Type 0
  Attempted r = length r.attempts ≤ total

  -- The loop stands before (`slack` 1) or behind (0) an attempt on a target, with `n` attempts left.
  pub record At (slack n : ℕ) (l : Loop) : Type 0 where
    pub index : ℕ
    pub at_index : l.target_index ≡ pos index
    pub in_range : index ≤ fallback_count
    pub room : l.run.target_counts (pos index) + slack ≤ limit
    pub later : (j : ℕ) → index < j → l.run.target_counts (pos j) ≡ 0
    pub covers : Covers l.run.alternatives
    pub left : n ≡ (fallback_count - index) * limit + (limit - l.run.target_counts (pos index))
    pub spent : length l.run.attempts + n ≤ total

  abbrev pub goals : PolicyRun → List FallbackAlternative
  goals r = if is_nil p.fallbacks then r.alternatives else p.fallbacks

  -- What a decision of the policy means to the loop.
  pub data Move (l : Loop) (d : PolicyDecision) : PolicyDecisionKind → Type 0 where
    to_stop : Move l d PolicyDecisionKind.stop
    to_retry : l.run.target_counts l.target_index < limit → Move l d PolicyDecisionKind.retry
    to_fall_back :
        (t : FallbackAlternative)
        → d.target_index ≡ increment l.target_index
        → d.target ≡ some t
        → at_int (goals l.run) l.target_index ≡ some t
        → Move l d PolicyDecisionKind.fallback

  abbrev pub Next : ℕ → Loop → Type 0
  Next n l = (k : ℕ) × (k ≤ n) × At 1 k l

  abbrev pub Sure : ℕ → Turn → Type 0
  Sure n t = TurnSure (Next n) Attempted t

  retry_At :
      {n : ℕ} {l : Loop} (req : RunRequest)
      → At 0 n l
      → l.run.target_counts l.target_index < limit
      → At 1 n (record l { req = req })
  retry_At {n} {l} req a h = record {
    index = a.index;
    at_index = a.at_index;
    in_range = a.in_range;
    room = let h' : l.run.target_counts (pos a.index) < limit = rw a.at_index at h in omega arith;
    later = a.later;
    covers = a.covers;
    left = a.left;
    spent = a.spent;
  }

  index_lt :
      {n : ℕ} {l : Loop} (a : At 0 n l) (t : FallbackAlternative)
      → at_int (goals l.run) l.target_index ≡ some t
      → a.index < fallback_count
  index_lt {n} {l} a t h =
      let found : at_int (goals l.run) (pos a.index) ≡ some t = rw a.at_index at h in
      rw (← a.covers) (get_elem?_lt (goals l.run) a.index found)

  -- A store of the policy's target leaves the number of targets as it is.
  Covers-stored :
      (xs : List FallbackAlternative) (i : ℕ) (t : FallbackAlternative)
      → Covers xs
      → i < fallback_count
      → Covers (store_at xs i t)
  Covers-stored xs i t c h = elim (Bool-cases (is_nil p.fallbacks)) [
    | inl e ↦
        let own : length xs ≡ fallback_count = rw e at c in
        rw e (length-store_at xs i t (omega arith) ∙ own)
    | inr e ↦ let own : length p.fallbacks ≡ fallback_count = rw e at c in rw e own
  ]

  limit_pos : 0 < limit
  limit_pos = per_target_pos p.max_attempts_per_target

  fall_back_At :
      {n : ℕ} {l : Loop} (d : PolicyDecision) (t : FallbackAlternative) (req : RunRequest)
      → At 0 n l
      → d.target_index ≡ increment l.target_index
      → d.target ≡ some t
      → at_int (goals l.run) l.target_index ≡ some t
      → Next n (record l {
        run = apply_decision_target l.run d;
        target_index = d.target_index;
        req = req;
      })
  unfolding apply_decision_target
  fall_back_At {n} {l} d t req a to target h =
      let below = index_lt a t h in
      let goes : d.target_index ≡ pos (suc a.index) = to ∙ (rw a.at_index) in
      let fresh : l.run.target_counts (pos (suc a.index)) ≡ 0 =
        a.later (suc a.index) (omega arith) in
      let product = product_step fallback_count a.index limit below in
      (
        (fallback_count - suc a.index) * limit + limit,
        omega (arith, a.left, product),
        record {
          index = suc a.index;
          at_index = goes;
          in_range = below;
          room = rw fresh (omega (arith, limit_pos));
          later = λ j m. a.later j (omega arith);
          covers = rw (goes, target) (Covers-stored l.run.alternatives a.index t a.covers below);
          left = rw fresh (omega arith);
          spent = omega (arith, a.left, a.spent, product);
        },
      )

  proceed-Sure :
      (kind : PolicyDecisionKind) {n : ℕ} (l : Loop) (d : PolicyDecision) (w : W)
      → At 0 n l
      → Move l d kind
      → Sure n (proceed env kind l d w).0
  unfolding proceed finish
  proceed-Sure _ {n} l d w a to_stop = omega (arith, a.spent)
  proceed-Sure _ {n} l d w a (to_retry h) = (n, omega arith, retry_At _ a h)
  proceed-Sure _ {n} l d w a (to_fall_back t to target h) = fall_back_At d t _ a to target h

  after_sleep-Sure :
      (e : Option PlainError) {n : ℕ} (l : Loop) (d : PolicyDecision) (w : W)
      → At 0 n l
      → Move l d d.kind
      → Sure n (after_sleep env e l d w).0
  unfolding after_sleep finish
  after_sleep-Sure none l d w a m = proceed-Sure d.kind l d w a m
  after_sleep-Sure (some e) l d w a m = omega (arith, a.spent)

  Sure-if :
      (b : Bool) (n : ℕ) (t u : Turn × W) → Sure n t.0 → Sure n u.0 → Sure n (if b then t else u).0
  Sure-if true n t u ht hu = ht
  Sure-if false n t u ht hu = hu

  wait_Sure :
      {n : ℕ} (l : Loop) (d : PolicyDecision) (w : W)
      → At 0 n l
      → Move l d d.kind
      → Sure n (wait_and_proceed env l d w).0
  unfolding wait_and_proceed
  wait_Sure {n} l d w a m =
      let (e, w') = env.sleep d.delay w in
      Sure-if (is_positive d.delay) n (after_sleep env e l d w') (after_sleep env none l d w)
        (after_sleep-Sure e l d w' a m) (after_sleep-Sure none l d w a m)

  act-Sure :
      (kind : PolicyDecisionKind) {n : ℕ} (l : Loop) (d : PolicyDecision) (w : W)
      → At 0 n l
      → Move l d kind
      → Move l d d.kind
      → Sure n (act env kind l d w).0
  unfolding act finish
  act-Sure _ l d w a to_stop m = omega (arith, a.spent)
  act-Sure _ l d w a (to_retry h) m = wait_Sure l d w a m
  act-Sure _ l d w a (to_fall_back t to target h) m = wait_Sure l d w a m

  Decided-Move :
      (l : Loop) (c : PolicyContext) {d : PolicyDecision}
      → c.target_index ≡ l.target_index
      → c.attempt_on_target ≡ l.run.target_counts l.target_index
      → c.alternatives ≡ l.run.alternatives
      → Decided p c d
      → Move l (normalize_decision d c) (normalize_decision d c).kind
  unfolding normalize_decision targets
  Decided-Move l c {d} i n xs (stops e) = subst (Move l _) (sym (ap or_kind e)) to_stop
  Decided-Move l c {d} i n xs (retries e to sr cr tm) =
      subst (Move l _) (sym (ap or_kind e)) (to_retry (rw (← n) (can_retry_lt p c cr)))
  Decided-Move l c {d} i n xs (falls_back t e to target found sf) =
      subst (Move l _) (sym (ap or_kind e))
        (to_fall_back t (to ∙ ap increment i) target (rw (← i, ← xs) found))

  recorded_At :
      {n : ℕ} (l : Loop) (attempt : ℕ) (d : PolicyDecision) (c : PolicyContext) (w : W)
      → At 0 n l
      → At 0 n (record l { run = (record_decision env l.run attempt l.target_index d c w).0 })
  unfolding record_decision
  recorded_At l attempt d c w a = record {
    index = a.index;
    at_index = a.at_index;
    in_range = a.in_range;
    room = a.room;
    later = a.later;
    covers = a.covers;
    left = a.left;
    spent = a.spent;
  }

  pub follow-Sure :
      {o : Option PolicyDecision} {n : ℕ} (l : Loop) (attempt : ℕ) (c : PolicyContext) (w : W)
      → c.target_index ≡ l.target_index
      → c.attempt_on_target ≡ l.run.target_counts l.target_index
      → c.alternatives ≡ l.run.alternatives
      → At 0 n l
      → Returns (Decided p c) o
      → Sure n (follow env (elim o [ none ↦ none | some d ↦ some (d, none) ]) l attempt c w).0
  unfolding follow record_decision
  follow-Sure l attempt c w i k xs a (returned {a = d} h) =
      let d' = normalize_decision d c in
      let (r, w') = record_decision env l.run attempt l.target_index d' c w in
      let l' = record l { run = r } in
      let m = Decided-Move l' c i k xs h in
      act-Sure d'.kind l' d' w' (recorded_At l attempt d' c w a) m m

  bump_later : (f : ℤ → ℕ) (i j : ℕ) → i < j → f (pos j) ≡ 0 → bump f (pos i) (pos j) ≡ 0
  bump_later f i j h e = ground arith

  pub summary_At :
      {n : ℕ} (l : Loop) (r1 : PolicyRun) (attempt attempt_on_target : ℕ) (started : Time)
      (last : RunResult) (w : W)
      → At 1 n l
      → SameBooks (record l.run { target_counts = bump l.run.target_counts l.target_index }) r1
      → At 0 (n - 1) (record l {
        run = (keep_summary env r1 attempt attempt_on_target l.target_index l.req started last w).0;
        last = last;
      })
  unfolding keep_summary
  summary_At {n} l r1 attempt attempt_on_target started last w a s =
      let counts = l.run.target_counts in
      let mine : r1.target_counts (pos a.index) ≡ suc (counts (pos a.index)) =
        rw (s.same_counts, a.at_index) (bump_self counts (pos a.index)) in
      record {
        index = a.index;
        at_index = a.at_index;
        in_range = a.in_range;
        room = rw mine (omega (arith, a.room));
        later = λ j m. rw (s.same_counts, a.at_index) (bump_later counts a.index j m (a.later j m));
        covers = rw s.same_alternatives a.covers;
        left = rw mine (omega (arith, a.left, a.room));
        spent = rw (length-append, s.same_attempts) (omega (arith, a.spent, a.left, a.room));
      }

  pub weaken :
      (k n : ℕ) (t : Turn)
      → k < n
      → Sure k t
      → TurnSure (λ l. (m : ℕ) × (m < n) × At 1 m l) Attempted t
  weaken k n (ended r) h s = s
  weaken k n panicked h s = s
  weaken k n (again l) h s = (s.0, omega (arith, s.1), s.2)
