-- ===== src/Policy/Runner/Execute/Limits.antt =====
-- What bounds a policy run under BasicPolicy: the attempts on a target, and the number of targets.
use agentwrap.Prelude.{
  ℕ, zero, suc, ◌+◌, ◌*◌, ◌-◌, ◌<◌, ℤ, pos, negsuc, Time, ◌≡◌, refl, true, Option, none, some, List,
  [], ◌∷◌, arith, length,
}
use agentwrap.Errors.{PlainError, GoError}
use agentwrap.Policy.Types.{FallbackAlternative, PolicyContext, PolicyDecision}
use agentwrap.Policy.Basic.{BasicPolicy, can_retry, decide}
use agentwrap.Policy.Runner.State.{Environment}
use agentwrap.Policy.Runner.Targets.{store_at}

-- The attempts that a target gets: one at least.
abbrev pub per_target : ℤ → ℕ
per_target (pos zero) = 1
per_target (pos (suc n)) = suc n
per_target (negsuc n) = 1

-- The answer of a policy that is a BasicPolicy, from the context's error and the clock.
abbrev pub basic_answer :
    BasicPolicy
    → Option PlainError
    → Time
    → PolicyContext
    → Option (PolicyDecision × Option GoError)
basic_answer p e t c = elim (decide p e t c) [ none ↦ none | some d ↦ some (d, none) ]

-- The environment whose policy is `p`.
unfoldable pub basic_environment : {W : Type 0} → BasicPolicy → Environment W → Environment W
basic_environment p env = record env {
  decide =
      λ c w. let (e, w1) = env.ctx_err w in let (t, w2) = env.wall w1 in (basic_answer p e t c, w2);
}

pub can_retry_lt :
    (p : BasicPolicy) (c : PolicyContext)
    → can_retry p c ≡ true
    → c.attempt_on_target < per_target p.max_attempts_per_target
unfolding can_retry
can_retry_lt p c h = ground arith

pub length-store_at :
    (xs : List FallbackAlternative) (i : ℕ) (a : FallbackAlternative)
    → i < length xs
    → length (store_at xs i a) ≡ length xs
unfolding store_at
length-store_at [] i a h = absurd (omega arith)
length-store_at (x ∷ xs) zero a h = refl
length-store_at (x ∷ xs) (suc i) a h = omega (arith, length-store_at xs i a)

pub per_target_pos : (m : ℤ) → 0 < per_target m
per_target_pos (pos zero) = omega arith
per_target_pos (pos (suc n)) = omega arith
per_target_pos (negsuc n) = omega arith

pub product_step : (n i m : ℕ) → i < n → (n - i) * m ≡ (n - suc i) * m + m
product_step n i m h = let e : n - i ≡ suc (n - suc i) = omega arith in rw e (omega arith)

pub start_left : (c m : ℕ) → suc c * m ≡ (c - 0) * m + (m - 0)
start_left c m =
    let e : c - 0 ≡ c = omega arith in let f : m - 0 ≡ m = omega arith in rw (e, f) (omega arith)
