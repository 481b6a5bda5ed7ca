-- ===== src/Policy/Runner/Execute/Invariant.antt =====
-- The rule for invariants of the loop of policyRun.execute.
use agentwrap.Prelude.{
  ℕ, zero, suc, Ensures, nothing, just, Returns, returned, ◌<◌, ◌≡◌, refl, arith,
}
use agentwrap.Policy.Runner.State.{Environment, PolicyRun}
use agentwrap.Policy.Runner.Execute.{Loop, Turn, ended, panicked, again, round, rounds}

-- What holds of a turn: `Q` of a run that has ended, `P` of the variables of a further round.
abbrev pub TurnAll : (Loop → Type 0) → (PolicyRun → Type 0) → Turn → Type 0
TurnAll P Q (ended r) = Q r
TurnAll P Q panicked = Unit {0}
TurnAll P Q (again l) = P l

module _ {W : Type 0} (env : Environment W) (P : Loop → Type 0) (Q : PolicyRun → Type 0) where
  -- If every round keeps the invariant, all that a run of rounds returns has it.
  pub rounds_inv :
      ((l : Loop) (w : W) → P l → TurnAll P Q (round env l w).0)
      → (fuel : ℕ) (t : Turn) (w : W) → TurnAll P Q t
      → Ensures (λ (a : Turn × W). TurnAll P Q a.0) (rounds env fuel (t, w))
  unfolding rounds
  rounds_inv keep zero (ended r) w h = just h
  rounds_inv keep (suc fuel) (ended r) w h = just h
  rounds_inv keep zero panicked w h = just h
  rounds_inv keep (suc fuel) panicked w h = just h
  rounds_inv keep zero (again l) w h = nothing
  rounds_inv keep (suc fuel) (again l) w h =
      let (t, w') = round env l w in rounds_inv keep fuel t w' (keep l w h)

-- What holds of a turn that does not panic.
abbrev pub TurnSure : (Loop → Type 0) → (PolicyRun → Type 0) → Turn → Type 0
TurnSure P Q (ended r) = Q r
TurnSure P Q panicked = ⊥
TurnSure P Q (again l) = P l

abbrev pub EndsWith : (PolicyRun → Type 0) → Turn → Type 0
EndsWith Q t = (r : PolicyRun) × (t ≡ ended r) × Q r

module _ {W : Type 0} (env : Environment W) (P : ℕ → Loop → Type 0) (Q : PolicyRun → Type 0) where
  abbrev Below : ℕ → Loop → Type 0
  Below n l = (k : ℕ) × (k < n) × P k l

  -- If every round lowers the measure of the loop's variables, as much fuel as the measure ends the run.
  pub rounds_total :
      ((n : ℕ) (l : Loop) (w : W) → P n l → TurnSure (Below n) Q (round env l w).0)
      → (fuel n : ℕ) (t : Turn) (w : W) → n < suc fuel
      → TurnSure (Below n) Q t
      → Returns (λ (a : Turn × W). EndsWith Q a.0) (rounds env fuel (t, w))
  unfolding rounds
  rounds_total keep zero n (ended r) w m h = returned (r, refl, h)
  rounds_total keep (suc fuel) n (ended r) w m h = returned (r, refl, h)
  rounds_total keep zero n panicked w m h = absurd h
  rounds_total keep (suc fuel) n panicked w m h = absurd h
  rounds_total keep zero n (again l) w m h = absurd (omega (arith, h.1))
  rounds_total keep (suc fuel) n (again l) w m h =
      let (t, w') = round env l w in
      rounds_total keep fuel h.0 t w' (omega (arith, h.1)) (keep h.0 l w h.2)
