-- ===== src/Policy/Backoff.antt =====
-- FixedBackoff and ExponentialBackoff of policy.go. Floats are a parameter.
use agentwrap.Prelude.{
  ℕ, zero, suc, ◌-◌, pos, negsuc, ltb_ℤ, Bool-cases, inl, inr, ◌≤ℤ◌, is_positive, Duration, ◌≡◌,
  Bool, true, ◌&&◌, not, arith, if◌then◌else◌,
}

-- What the code uses of float64: the conversions from and to a duration, `*`, `<` and the number 1.
pub record Floats : Type 1 where
  pub F : Type 0
  pub of_duration : Duration → F
  pub to_duration : F → Duration
  pub multiply : F → F → F
  pub less : F → F → Bool
  pub one : F

-- The delay of FixedBackoff.
abbrev pub fixed_delay : Duration → Duration
fixed_delay delay_value = delay_value

module _ (floats : Floats) where
  open floats use {F, of_duration, to_duration, multiply, less, one}

  pub record ExponentialBackoff : Type 0 where
    pub initial : Duration
    pub factor : F
    pub max : Duration

  -- The loop of Delay: one multiplication for each attempt after the first.
  unfoldable pub grow : ℕ → F → F → F
  grow zero factor delay = delay
  grow (suc n) factor delay = grow n factor (multiply delay factor)

  abbrev pub capped : Duration → Duration → Duration
  capped max result = if is_positive max && ltb_ℤ max result then max else result

  unfoldable pub delay : ExponentialBackoff → ℕ → Duration
  unfolding grow
  delay b attempt_on_target =
      if not (is_positive b.initial)
      then pos 0
      else capped b.max (
          to_duration (
            grow (attempt_on_target - 1) (if less b.factor one then one else b.factor)
              (of_duration b.initial)))

  zero_le : (d : Duration) → is_positive d ≡ true → pos 0 ≤ℤ d
  zero_le (pos n) h = omega arith
  zero_le (negsuc n) h = cc

  capped_le : (max result : Duration) → is_positive max ≡ true → capped max result ≤ℤ max
  capped_le max result h = rw h (ground arith)

  -- With a positive maximum, no attempt's delay is above it.
  pub delay_le_max :
      (b : ExponentialBackoff) (attempt_on_target : ℕ)
      → is_positive b.max ≡ true
      → delay b attempt_on_target ≤ℤ b.max
  unfolding delay
  delay_le_max b attempt_on_target h = elim (Bool-cases (is_positive b.initial)) [
    | inl start ↦ rw start (capped_le b.max _ h)
    | inr start ↦ rw start (zero_le b.max h)
  ]
