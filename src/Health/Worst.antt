-- ===== src/Health/Worst.antt =====
-- The overall status of health.go is the worst one: what `rank` puts in order.
use agentwrap.Prelude.{
  ℕ, ◌≤◌, ◌≡◌, refl, sym, subst, ◌∙◌, ◌⊎◌, inl, inr, true, false, List, [], ◌∷◌, arith, Bool-cases,
}
use agentwrap.Health.{
  HealthStatus, HealthResult, worsen, is_unrecoverable, overall_from, overall_health_status,
}

-- The order of the statuses.
pub rank : HealthStatus → ℕ
rank HealthStatus.ready = 0
rank (HealthStatus.other s) = 0
rank HealthStatus.skipped = 1
rank HealthStatus.unsupported = 1
rank HealthStatus.unknown = 2
rank HealthStatus.transient_fail = 3
rank HealthStatus.degraded = 4
rank HealthStatus.unrecoverable = 5

-- It stands first, or is the status of a result.
pub data Among (s : HealthStatus) : HealthStatus → List HealthResult → Type 0 where
  at_first : {results : List HealthResult} → Among s s results
  at_result :
      {first : HealthStatus} {result : HealthResult} {results : List HealthResult}
      → result.status ≡ s
      → Among s first (result ∷ results)
  behind :
      {first : HealthStatus} {result : HealthResult} {results : List HealthResult}
      → Among s first results
      → Among s first (result ∷ results)

pub data AllAtMost (s : HealthStatus) : List HealthResult → Type 0 where
  no_result : AllAtMost s []
  each :
      {result : HealthResult} {results : List HealthResult}
      → rank result.status ≤ rank s
      → AllAtMost s results
      → AllAtMost s (result ∷ results)

rank_le : (s : HealthStatus) → rank s ≤ 5
unfolding rank
rank_le HealthStatus.ready = omega arith
rank_le HealthStatus.degraded = omega arith
rank_le HealthStatus.transient_fail = omega arith
rank_le HealthStatus.unrecoverable = omega arith
rank_le HealthStatus.unknown = omega arith
rank_le HealthStatus.skipped = omega arith
rank_le HealthStatus.unsupported = omega arith
rank_le (HealthStatus.other s) = omega arith

AllAtMost-worst : (rs : List HealthResult) → AllAtMost HealthStatus.unrecoverable rs
unfolding rank
AllAtMost-worst [] = no_result
AllAtMost-worst (r ∷ rs) = each (rank_le r.status) (AllAtMost-worst rs)

-- The statuses that the loop can reach.
data Reached : HealthStatus → Type 0 where
  so_ready : Reached HealthStatus.ready
  so_skipped : Reached HealthStatus.skipped
  so_unsupported : Reached HealthStatus.unsupported
  so_unknown : Reached HealthStatus.unknown
  so_transient_fail : Reached HealthStatus.transient_fail
  so_degraded : Reached HealthStatus.degraded

-- A case keeps the status or takes the result's, and what it leaves is as severe as both.
record Worsened (s t w : HealthStatus) : Type 0 where
  reached : Reached w
  either : (w ≡ s) ⊎ (w ≡ t)
  first_le : rank s ≤ rank w
  second_le : rank t ≤ rank w

kept : (s t : HealthStatus) → Reached s → rank t ≤ rank s → Worsened s t s
kept s t r le = record { reached = r; either = inl refl; first_le = omega arith; second_le = le }

taken : (s t : HealthStatus) → Reached t → rank s ≤ rank t → Worsened s t t
taken s t r le = record { reached = r; either = inr refl; first_le = le; second_le = omega arith }

Reached-le_degraded : (s : HealthStatus) → Reached s → rank s ≤ 4
unfolding rank
Reached-le_degraded _ so_ready = omega arith
Reached-le_degraded _ so_skipped = omega arith
Reached-le_degraded _ so_unsupported = omega arith
Reached-le_degraded _ so_unknown = omega arith
Reached-le_degraded _ so_transient_fail = omega arith
Reached-le_degraded _ so_degraded = omega arith

worsen-Worsened :
    (s t : HealthStatus) → Reached s → is_unrecoverable t ≡ false → Worsened s t (worsen s t)
unfolding worsen rank
worsen-Worsened s HealthStatus.ready r f = kept s _ r (omega arith)
worsen-Worsened s (HealthStatus.other t) r f = kept s _ r (omega arith)
worsen-Worsened s HealthStatus.unrecoverable r f = absurd (cc f)
worsen-Worsened s HealthStatus.degraded r f = taken s _ so_degraded (Reached-le_degraded s r)
worsen-Worsened _ HealthStatus.transient_fail so_degraded f = kept _ _ so_degraded (omega arith)
worsen-Worsened _ HealthStatus.transient_fail so_ready f = taken _ _ so_transient_fail (omega arith)
worsen-Worsened _ HealthStatus.transient_fail so_skipped f =
    taken _ _ so_transient_fail (omega arith)
worsen-Worsened _ HealthStatus.transient_fail so_unsupported f =
    taken _ _ so_transient_fail (omega arith)
worsen-Worsened _ HealthStatus.transient_fail so_unknown f =
    taken _ _ so_transient_fail (omega arith)
worsen-Worsened _ HealthStatus.transient_fail so_transient_fail f =
    kept _ _ so_transient_fail (omega arith)
worsen-Worsened _ HealthStatus.unknown so_ready f = taken _ _ so_unknown (omega arith)
worsen-Worsened _ HealthStatus.unknown so_skipped f = taken _ _ so_unknown (omega arith)
worsen-Worsened _ HealthStatus.unknown so_unsupported f = taken _ _ so_unknown (omega arith)
worsen-Worsened _ HealthStatus.unknown so_unknown f = kept _ _ so_unknown (omega arith)
worsen-Worsened _ HealthStatus.unknown so_transient_fail f =
    kept _ _ so_transient_fail (omega arith)
worsen-Worsened _ HealthStatus.unknown so_degraded f = kept _ _ so_degraded (omega arith)
worsen-Worsened _ HealthStatus.skipped so_ready f = taken _ _ so_skipped (omega arith)
worsen-Worsened _ HealthStatus.skipped so_skipped f = kept _ _ so_skipped (omega arith)
worsen-Worsened _ HealthStatus.skipped so_unsupported f = kept _ _ so_unsupported (omega arith)
worsen-Worsened _ HealthStatus.skipped so_unknown f = kept _ _ so_unknown (omega arith)
worsen-Worsened _ HealthStatus.skipped so_transient_fail f =
    kept _ _ so_transient_fail (omega arith)
worsen-Worsened _ HealthStatus.skipped so_degraded f = kept _ _ so_degraded (omega arith)
worsen-Worsened _ HealthStatus.unsupported so_ready f = taken _ _ so_unsupported (omega arith)
worsen-Worsened _ HealthStatus.unsupported so_skipped f = kept _ _ so_skipped (omega arith)
worsen-Worsened _ HealthStatus.unsupported so_unsupported f = kept _ _ so_unsupported (omega arith)
worsen-Worsened _ HealthStatus.unsupported so_unknown f = kept _ _ so_unknown (omega arith)
worsen-Worsened _ HealthStatus.unsupported so_transient_fail f =
    kept _ _ so_transient_fail (omega arith)
worsen-Worsened _ HealthStatus.unsupported so_degraded f = kept _ _ so_degraded (omega arith)

-- A status that is not the first one stands among the results, whatever is first.
Among-cases :
    {x w : HealthStatus} {rs : List HealthResult}
    → Among x w rs
    → (x ≡ w) ⊎ ((s : HealthStatus) → Among x s rs)
Among-cases at_first = inl refl
Among-cases (at_result e) = inr (λ s. at_result e)
Among-cases (behind a) = elim (Among-cases a) [ inl e ↦ inl e | inr k ↦ inr (λ s. behind (k s)) ]

Among-before :
    (s w x : HealthStatus) (r : HealthResult) (rs : List HealthResult)
    → (w ≡ s) ⊎ (w ≡ r.status)
    → Among x w rs
    → Among x s (r ∷ rs)
Among-before s w x r rs (inl e) a = behind (subst (λ y. Among x y rs) e a)
Among-before s w x r rs (inr e) a = elim (Among-cases a) [
  | inl same ↦ at_result (sym (same ∙ e))
  | inr k ↦ behind (k s)
]

-- It is the first status or a result's, and none of these is more severe.
pub record IsWorst (first : HealthStatus) (results : List HealthResult) (s : HealthStatus)
    : Type 0 where
  pub among : Among s first results
  pub all_at_most : AllAtMost s results
  pub first_le : rank first ≤ rank s

IsWorst-returned :
    (s : HealthStatus) (r : HealthResult) (rs : List HealthResult)
    → is_unrecoverable r.status ≡ true
    → IsWorst s (r ∷ rs) HealthStatus.unrecoverable
unfolding rank
IsWorst-returned s r rs t = record {
  among = at_result (is_it r.status t);
  all_at_most = AllAtMost-worst (r ∷ rs);
  first_le = rank_le s;
}
  where
    is_it : (t : HealthStatus) → is_unrecoverable t ≡ true → t ≡ HealthStatus.unrecoverable
    is_it HealthStatus.unrecoverable e = refl
    is_it _ e = absurd (cc e)

IsWorst-worsen :
    (s w x : HealthStatus) (r : HealthResult) (rs : List HealthResult)
    → Worsened s r.status w
    → IsWorst w rs x
    → IsWorst s (r ∷ rs) x
IsWorst-worsen s w x r rs a b = record {
  among = Among-before s w x r rs a.either b.among;
  all_at_most = each (omega (arith, a.second_le, b.first_le)) b.all_at_most;
  first_le = omega (arith, a.first_le, b.first_le);
}

overall_from-IsWorst :
    (s : HealthStatus) (rs : List HealthResult) → Reached s → IsWorst s rs (overall_from s rs)
unfolding overall_from
overall_from-IsWorst s [] h = record {
  among = at_first;
  all_at_most = no_result;
  first_le = omega arith;
}
overall_from-IsWorst s (r ∷ rs) h = elim (Bool-cases (is_unrecoverable r.status)) [
  | inl t ↦ rw t (IsWorst-returned s r rs t)
  | inr f ↦
      let step = worsen-Worsened s r.status h f in
      rw f (
        IsWorst-worsen s (worsen s r.status) _ r rs step
          (overall_from-IsWorst (worsen s r.status) rs step.reached))
]

-- The overall status is `ready` or the status of a result, and no result has a more severe one:
-- skipped and unsupported come before unknown, and this before a transient failure, a degraded
-- runtime and an unrecoverable failure, in this order.
pub overall_health_status-IsWorst :
    (results : List HealthResult)
    → IsWorst HealthStatus.ready results (overall_health_status results)
unfolding overall_health_status
overall_health_status-IsWorst results = overall_from-IsWorst HealthStatus.ready results so_ready
