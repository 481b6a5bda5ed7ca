-- ===== src/Health/Required/Exact.antt =====
-- When RequiredHealthFailure of health.go finds no failure.
use agentwrap.Prelude.{
  String, ◌≡◌, refl, sym, ◌∙◌, ◌↔◌, Bool, true, false, ◌&&◌, ◌||◌, none, List, [], ◌∷◌,
}
use agentwrap.Health.{HealthResult}
use agentwrap.Health.Required.{
  member, Scan, failed, finished, scan, result_checks, after_scan, required_health_failure,
}
use agentwrap.Health.Required.Rounds.{
  AllGood, AllIn, AllIn-member, AllIn-intro, Finished, done, not_done, scan-Finished,
  first_missing_exact,
}

-- No required check fails: with no check required by name, each result is
-- good; else each result of a required check is, and each required check has a result.
pub data IsFit (results : List HealthResult) : List String → Type 0 where
  all_good : AllGood (result_checks results) results → IsFit results []
  required_good :
      {check : String} {checks : List String}
      → AllGood (check ∷ checks) results
      → AllIn (result_checks results) (check ∷ checks)
      → IsFit results (check ∷ checks)

pub IsFit-good :
    {results : List HealthResult} → IsFit results [] → AllGood (result_checks results) results
IsFit-good (all_good a) = a

wanted_seen : (p w t : Bool) → p ≡ (false || (w && t)) → w ≡ true → p ≡ t
wanted_seen p true t e h = e
wanted_seen p false t e h = absurd (cc h)

AllIn-seen :
    (seen ys xs : List String)
    → ((x : String) → member x xs ≡ true → member x seen ≡ member x ys)
    → AllIn seen xs ↔ AllIn ys xs
AllIn-seen seen ys xs h = (
  λ a. AllIn-intro xs ys (λ x k. sym (h x k) ∙ AllIn-member x a k),
  λ a. AllIn-intro xs seen (λ x k. h x k ∙ AllIn-member x a k),
)

module _ (order : List String → List String)
    (same_keys : (x : String) (keys : List String) → member x (order keys) ≡ member x keys) where
  AllIn-order : (xs ys : List String) → AllIn ys (order xs) ↔ AllIn ys xs
  AllIn-order xs ys = (
    λ a. AllIn-intro xs ys (λ x m. AllIn-member x a (same_keys x xs ∙ m)),
    λ a. AllIn-intro (order xs) ys (λ x m. AllIn-member x a (sym (same_keys x xs) ∙ m)),
  )

  after_scan_exact :
      (c : String) (cs : List String) (results : List HealthResult) (s : Scan)
      → Finished (c ∷ cs) [] results s
      → after_scan order (c ∷ cs) s ≡ none ↔ IsFit results (c ∷ cs)
  unfolding after_scan
  after_scan_exact c cs results (finished s) (done _ a m) =
      let seen =
        AllIn-seen s (result_checks results) (c ∷ cs)
          (λ x k. wanted_seen _ (member x (c ∷ cs)) _ (m x) k) in
      (
        λ e.
            let all_seen = (first_missing_exact s (order (c ∷ cs))).0 e in
            required_good a (seen.0 ((AllIn-order (c ∷ cs) s).0 all_seen)),
        λ f.
            (first_missing_exact s (order (c ∷ cs))).1
              ((AllIn-order (c ∷ cs) s).1 (seen.1 (fit_seen f))),
      )
    where
      fit_seen :
          {c : String} {cs : List String}
          → IsFit results (c ∷ cs)
          → AllIn (result_checks results) (c ∷ cs)
      fit_seen (required_good a i) = i
  after_scan_exact c cs results (failed e) (not_done _ k) =
      (λ h. absurd (cc h), λ f. absurd (k (fit_good f)))
    where
      fit_good : {c : String} {cs : List String} → IsFit results (c ∷ cs) → AllGood (c ∷ cs) results
      fit_good (required_good a i) = a

  after_scan_all :
      (results : List HealthResult) (s : Scan)
      → Finished (result_checks results) [] results s
      → after_scan order [] s ≡ none ↔ IsFit results []
  unfolding after_scan
  after_scan_all results (finished s) (done _ a m) = (λ _. all_good a, λ _. refl)
  after_scan_all results (failed e) (not_done _ k) =
      (λ h. absurd (cc h), λ f. absurd (k (IsFit-good f)))

  -- Whatever the order in which Go ranges over the required checks: RequiredHealthFailure returns no
  -- error exactly where each required check has a result and every result of one is ready or skipped;
  -- where no check is required by name, every result counts.
  pub required_health_failure_exact :
      (results : List HealthResult) (required : List String)
      → required_health_failure order results required ≡ none ↔ IsFit results required
  unfolding required_health_failure
  required_health_failure_exact results [] =
      after_scan_all results (scan (result_checks results) [] results)
        (scan-Finished (result_checks results) [] results)
  required_health_failure_exact results (c ∷ cs) =
      after_scan_exact c cs results (scan (c ∷ cs) [] results) (scan-Finished (c ∷ cs) [] results)
