-- ===== src/Policy/Runner/Execute/Termination.antt =====
-- With BasicPolicy a policy run ends, within a number of attempts that its configuration fixes.
use agentwrap.Prelude.{
  ℕ, suc, ◌*◌, ◌-◌, ◌≤◌, ◌<◌, Time, ◌≡◌, refl, Option, none, some, List, arith, length, is_nil,
  Returns, if◌then◌else◌,
}
use agentwrap.Errors.{SdkError, PlainError}
use agentwrap.Contract.{Handle, RunRequest, RunResult}
use agentwrap.Policy.Types.{FallbackAlternative}
use agentwrap.Policy.Basic.{BasicPolicy}
use agentwrap.Policy.Basic.Laws.{decide_total}
use agentwrap.Policy.Runner.State.{Environment, PolicyRun, new_run}
use agentwrap.Policy.Runner.Attempt.{bump, perform, keep_summary, policy_context}
use agentwrap.Policy.Runner.Finish.{finish, finish_cancelled}
use agentwrap.Policy.Runner.Execute.{
  Loop, first_loop, Turn, again, round, execute, consult, attempt_round, guarded,
}
use agentwrap.Policy.Runner.Execute.Invariant.{TurnSure, EndsWith, rounds_total}
use agentwrap.Policy.Runner.Execute.Books.{SameBooks}
use agentwrap.Policy.Runner.Execute.Audit.{perform_same}
use agentwrap.Policy.Runner.Execute.Limits.{
  per_target, basic_environment, per_target_pos, start_left,
}
use agentwrap.Policy.Runner.Execute.Steps.{At, Attempted, Sure, follow-Sure, summary_At, weaken}

module _ {W : Type 0} (env : Environment W) (p : BasicPolicy) (fallback_count : ℕ) where
  abbrev basic : Environment W
  basic = basic_environment p env

  consult-Sure :
      (err : Option SdkError) {n : ℕ} (l : Loop) (attempt attempt_on_target : ℕ) (w : W)
      → attempt_on_target ≡ l.run.target_counts l.target_index
      → At basic p fallback_count 0 n l
      → Sure basic p fallback_count n (consult basic err l attempt attempt_on_target w).0
  unfolding consult finish basic_environment
  consult-Sure none l attempt attempt_on_target w h a = omega (arith, a.spent)
  consult-Sure (some e) l attempt attempt_on_target w h a =
      let (c, w1) =
        policy_context basic l.run attempt attempt_on_target l.target_index l.req l.last e w in
      let (x, w2) = env.ctx_err w1 in
      let (t, w3) = env.wall w2 in
      unfold policy_context in
      follow-Sure basic p fallback_count l attempt c w3 refl h refl a
        (decide_total p x t c a.index a.at_index)

  abbrev Falls : ℕ → Turn → Type 0
  Falls n t =
      TurnSure (λ l. (m : ℕ) × (m < n) × At basic p fallback_count 1 m l)
        (Attempted basic p fallback_count) t

  attempt_Sure :
      (n : ℕ) (l : Loop) (w : W)
      → At basic p fallback_count 1 n l
      → Falls n (attempt_round basic l w).0
  unfolding attempt_round
  attempt_Sure n l w a =
      let r0 = record l.run { target_counts = bump l.run.target_counts l.target_index } in
      let attempt = suc (length r0.attempts) in
      let attempt_on_target = r0.target_counts l.target_index in
      let (started, w1) = basic.now w in
      let (performed, w2) = perform basic r0 attempt l.target_index l.req started w1 in
      let (r1, last) = performed in
      let (r2, w3) =
        keep_summary basic r1 attempt attempt_on_target l.target_index l.req started last w2 in
      let same = perform_same basic r0 attempt l.target_index l.req started w1 in
      weaken basic p fallback_count (n - 1) n _ (omega (arith, a.left, a.room)) (
        consult-Sure last.err (record l { run = r2; last = last }) attempt attempt_on_target w3
          (counts_kept r1 attempt attempt_on_target started last w2 same)
          (summary_At basic p fallback_count l r1 attempt attempt_on_target started last w2 a same))
    where
      counts_kept :
          (r1 : PolicyRun) (attempt attempt_on_target : ℕ) (started : Time) (last : RunResult)
          (w : W)
          → SameBooks (record l.run { target_counts = bump l.run.target_counts l.target_index }) r1
          → bump l.run.target_counts l.target_index l.target_index
            ≡ (keep_summary basic r1 attempt attempt_on_target l.target_index l.req started last
                  w).0.target_counts
                l.target_index
      counts_kept r1 attempt attempt_on_target started last w s =
          unfold keep_summary in rw s.same_counts refl

  guarded-Sure :
      (e : Option PlainError) (n : ℕ) (l : Loop) (w : W)
      → At basic p fallback_count 1 n l
      → Falls n (guarded basic e l w).0
  unfolding guarded finish_cancelled finish
  guarded-Sure (some x) n l w a = omega (arith, a.spent)
  guarded-Sure none n l w a = attempt_Sure n l w a

  round-Sure :
      (n : ℕ) (l : Loop) (w : W) → At basic p fallback_count 1 n l → Falls n (round basic l w).0
  unfolding round
  round-Sure n l w a = guarded-Sure _ n l _ a

-- A policy run under BasicPolicy always ends, without a panic, whatever runtimes, context, clock and
-- readers do, and has then made at most (fallbacks + 1) · max(1, MaxAttemptsPerTarget) attempts;
-- the fallbacks are the policy's, or the runner's alternatives where the policy has none. That many
-- rounds and one more are fuel enough.
pub execute_ends :
    {W : Type 0} (env : Environment W) (p : BasicPolicy) (primary : Handle)
    (alternatives : List FallbackAlternative) (counter : ℕ) (started : Time) (req : RunRequest)
    (w : W)
    → let bound =
        suc (length (if is_nil p.fallbacks then alternatives else p.fallbacks))
        * per_target p.max_attempts_per_target in
      Returns
        (λ (a : Turn × W). EndsWith (λ r. length r.attempts ≤ bound) a.0)
        (execute
          (basic_environment p env)
          (suc bound)
          (new_run primary alternatives counter started req)
          w)
unfolding execute new_run
execute_ends env p primary alternatives counter started req w =
    let count = length (if is_nil p.fallbacks then alternatives else p.fallbacks) in
    let m = per_target p.max_attempts_per_target in
    let r = new_run primary alternatives counter started req in
    rounds_total (basic_environment p env) (At (basic_environment p env) p count 1)
      (Attempted (basic_environment p env) p count) (round-Sure env p count) (suc (suc count * m))
      (suc (suc count * m)) (again (first_loop r)) w (omega arith)
      (
        suc count * m,
        omega arith,
        record {
          index = 0;
          at_index = refl;
          in_range = omega arith;
          room = omega (arith, per_target_pos p.max_attempts_per_target);
          later = λ j h. refl;
          covers = refl;
          left = start_left count m;
          spent = omega arith;
        },
      )
