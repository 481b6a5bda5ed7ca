-- ===== src/Health/Required/Rounds.antt =====
-- The loops of RequiredHealthFailure (health.go): what a scan of the results has seen.
use agentwrap.Prelude.{
  String, ◌≡◌, refl, sym, subst, ◌∙◌, ◌↔◌, inl, inr, Bool, true, false, ◌&&◌, ◌||◌, Option, none,
  some, List, [], ◌∷◌, str_eq, eq_iff, Bool-cases, Option-cases,
}
use agentwrap.Errors.{SdkError}
use agentwrap.Health.{HealthStatus, HealthResult}
use agentwrap.Health.Required.{
  member, status_failure, Scan, failed, finished, scan, first_missing, result_checks,
}

-- The statuses that a required check may have.
pub data IsGood : HealthStatus → Type 0 where
  good_ready : IsGood HealthStatus.ready
  good_skipped : IsGood HealthStatus.skipped

-- Each result of a wanted check is good.
pub data AllGood (wanted : List String) : List HealthResult → Type 0 where
  no_result : AllGood wanted []
  unwanted :
      {result : HealthResult} {results : List HealthResult}
      → member result.check wanted ≡ false
      → AllGood wanted results
      → AllGood wanted (result ∷ results)
  good :
      {result : HealthResult} {results : List HealthResult}
      → IsGood result.status
      → AllGood wanted results
      → AllGood wanted (result ∷ results)

-- Each text of the first list is in the second.
pub data AllIn (ys : List String) : List String → Type 0 where
  nothing_left : AllIn ys []
  one_more : {x : String} {xs : List String} → member x ys ≡ true → AllIn ys xs → AllIn ys (x ∷ xs)

pub AllIn-member :
    {ys xs : List String} (x : String) → AllIn ys xs → member x xs ≡ true → member x ys ≡ true
unfolding member
AllIn-member x nothing_left m = absurd (cc m)
AllIn-member {ys} x (one_more {x = y} {xs} h a) m = elim (Bool-cases (str_eq y x)) [
  | inl e ↦ subst (λ z. member z ys ≡ true) ((eq_iff y x).0 e) h
  | inr e ↦ AllIn-member x a (rw e at m)
]

pub AllIn-intro :
    (xs ys : List String) → ((x : String) → member x xs ≡ true → member x ys ≡ true) → AllIn ys xs
unfolding member
AllIn-intro [] ys h = nothing_left
AllIn-intro (x ∷ xs) ys h =
    one_more (h x (rw ((eq_iff x x).1 refl) refl))
      (AllIn-intro xs ys (λ z m. h z (member-tail (str_eq x z) m)))
  where
    member-tail : {m : Bool} (b : Bool) → m ≡ true → b || m ≡ true
    member-tail true e = refl
    member-tail false e = e

status_failure-IsGood :
    (t : HealthStatus) (err : Option SdkError) (check : String)
    → status_failure t err check ≡ none
    → IsGood t
unfolding status_failure
status_failure-IsGood HealthStatus.ready err check e = good_ready
status_failure-IsGood HealthStatus.skipped err check e = good_skipped
status_failure-IsGood _ err check e = absurd (cc e)

IsGood-status_failure :
    (t : HealthStatus) (err : Option SdkError) (check : String)
    → IsGood t
    → status_failure t err check ≡ none
unfolding status_failure
IsGood-status_failure _ err check good_ready = refl
IsGood-status_failure _ err check good_skipped = refl

-- The checks seen after the loop are those seen before it and the wanted ones among the results.
pub data Finished (wanted seen : List String) (results : List HealthResult) : Scan → Type 0 where
  done :
      (s : List String)
      → AllGood wanted results
      → ((x : String)
          → member x s ≡ (member x seen || (member x wanted && member x (result_checks results))))
      → Finished wanted seen results (finished s)
  not_done : (e : SdkError) → (AllGood wanted results → ⊥) → Finished wanted seen results (failed e)

seen_nothing : (a b : Bool) → a ≡ (a || (b && false))
seen_nothing true b = refl
seen_nothing false true = refl
seen_nothing false false = refl

AllGood-tail :
    {wanted : List String} {r : HealthResult} {rs : List HealthResult}
    → AllGood wanted (r ∷ rs)
    → AllGood wanted rs
AllGood-tail (unwanted n a) = a
AllGood-tail (good g a) = a

-- A bad result of a wanted check is an error.
AllGood-bad :
    {wanted : List String} {r : HealthResult} {rs : List HealthResult} {e : SdkError}
    → member r.check wanted ≡ true
    → status_failure r.status r.err r.check ≡ some e
    → AllGood wanted (r ∷ rs)
    → ⊥
AllGood-bad w q (unwanted n a) = cc (w, n)
AllGood-bad {r} w q (good g a) = cc (q, IsGood-status_failure r.status r.err r.check g)

member-same :
    (x y : String) (w : List String) (b : Bool)
    → str_eq y x ≡ true
    → member y w ≡ b
    → member x w ≡ b
member-same x y w b e h = subst (λ z. member z w ≡ b) ((eq_iff y x).0 e) h

or_true : (a : Bool) → (a || true) ≡ true
or_true true = refl
or_true false = refl

-- A wanted check that is seen in this round is one of the results.
move_seen :
    (p same seen wanted rest : Bool)
    → (same ≡ true → wanted ≡ true)
    → p ≡ ((same || seen) || (wanted && rest))
    → p ≡ (seen || (wanted && (same || rest)))
move_seen p false seen wanted rest h e = e
move_seen p true seen true rest h e = e ∙ sym (or_true seen)
move_seen p true seen false rest h e = absurd (cc (h refl))

skip_round :
    {wanted seen : List String} {r : HealthResult} {rs : List HealthResult} {s : Scan}
    → member r.check wanted ≡ false
    → Finished wanted seen rs s
    → Finished wanted seen (r ∷ rs) s
unfolding member
skip_round {wanted} {seen} {r} {rs} n (done s a m) = done s (unwanted n a) (λ x.
    elim (Bool-cases (str_eq r.check x)) [
      | inl e ↦ let absent = member-same x r.check wanted false e n in m x ∙ rw absent refl
      | inr e ↦ rw e (m x)
    ])
skip_round {wanted} {seen} {r} {rs} n (not_done e k) = not_done e (λ a. k (AllGood-tail a))

pass_round :
    {wanted seen : List String} {r : HealthResult} {rs : List HealthResult} {s : Scan}
    → member r.check wanted ≡ true
    → IsGood r.status
    → Finished wanted (r.check ∷ seen) rs s
    → Finished wanted seen (r ∷ rs) s
unfolding member
pass_round {wanted} {seen} {r} {rs} w g (done s a m) = done s (good g a) (λ x.
    move_seen (member x s) (str_eq r.check x) (member x seen) (member x wanted)
      (member x (result_checks rs)) (λ e. member-same x r.check wanted true e w) (m x))
pass_round {wanted} {seen} {r} {rs} w g (not_done e k) = not_done e (λ a. k (AllGood-tail a))

pub scan-Finished :
    (wanted seen : List String) (rs : List HealthResult)
    → Finished wanted seen rs (scan wanted seen rs)
unfolding scan member
scan-Finished wanted seen [] =
    done seen no_result (λ x. seen_nothing (member x seen) (member x wanted))
scan-Finished wanted seen (r ∷ rs) = elim (Bool-cases (member r.check wanted)) [
  | inl w ↦ elim (Option-cases (status_failure r.status r.err r.check)) [
    | inl e ↦
        rw (w, e)
          (pass_round w (status_failure-IsGood _ _ _ e) (scan-Finished wanted (r.check ∷ seen) rs))
    | inr (e, q) ↦ rw (w, q) (not_done e (AllGood-bad w q))
  ]
  | inr w ↦ rw w (skip_round w (scan-Finished wanted seen rs))
]

pub first_missing_exact :
    (seen checks : List String) → first_missing seen checks ≡ none ↔ AllIn seen checks
unfolding first_missing
first_missing_exact seen [] = (λ _. nothing_left, λ _. refl)
first_missing_exact seen (x ∷ xs) = elim (Bool-cases (member x seen)) [
  | inl m ↦ (
    λ e. one_more m ((first_missing_exact seen xs).0 (rw m at e)),
    λ a. rw m ((first_missing_exact seen xs).1 (in_tail a)),
  )
  | inr m ↦ (λ e. absurd (cc (rw m at e)), λ a. absurd (in_head m a))
]
  where
    in_tail : {x : String} {xs : List String} → AllIn seen (x ∷ xs) → AllIn seen xs
    in_tail (one_more h a) = a

    in_head : {x : String} {xs : List String} → member x seen ≡ false → AllIn seen (x ∷ xs) → ⊥
    in_head m (one_more h a) = cc (m, h)
