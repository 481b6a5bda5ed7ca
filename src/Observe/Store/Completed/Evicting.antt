-- ===== src/Observe/Store/Completed/Evicting.antt =====
-- What an eviction from a MemoryRunStore (observability.go) does to one run.
use agentwrap.Prelude.{
  ℕ, ℤ, Time, String, ◌≡◌, refl, sym, ◌∙◌, inl, inr, true, false, Bool-cases, none, List, [], ◌∷◌,
  length, str_eq, find, find-remove, is_positive, pos_part,
}
use agentwrap.Observe.Store.{
  MemoryRunStore, over, stored_at_of, evict_completed_run, expired, expire, shrink, expire_old,
  evict_completed,
}
use agentwrap.Observe.Store.Calls.{has}
use agentwrap.Observe.Store.Completed.{
  listed, Agrees, Books, Ordered, Holds-if, evicted-Books, expire_old-Ordered,
}

-- The run is left as it was, or its record was there and the store has nothing of it any more.
pub data Evicting (id : String) (s s' : MemoryRunStore) : Type 0 where
  untouched :
      s'.limits ≡ s.limits
      → has id s' ≡ has id s
      → find id s'.events ≡ find id s.events
      → find id s'.raw_bytes ≡ find id s.raw_bytes
      → Evicting id s s'
  gone :
      s'.limits ≡ s.limits
      → has id s ≡ true
      → has id s' ≡ false
      → find id s'.events ≡ none
      → find id s'.raw_bytes ≡ none
      → Evicting id s s'

pub same_limits : {id : String} {s s' : MemoryRunStore} → Evicting id s s' → s'.limits ≡ s.limits
same_limits (untouched l h e r) = l
same_limits (gone l b h e r) = l

then_Evicting :
    {id : String} {s s1 s2 : MemoryRunStore}
    → Evicting id s s1
    → Evicting id s1 s2
    → Evicting id s s2
then_Evicting (untouched l h e r) (untouched l' h' e' r') =
    untouched (l' ∙ l) (h' ∙ h) (e' ∙ e) (r' ∙ r)
then_Evicting (untouched l h e r) (gone l' b' h' e' r') = gone (l' ∙ l) (sym h ∙ b') h' e' r'
then_Evicting (gone l b h e r) (untouched l' h' e' r') = gone (l' ∙ l) b (h' ∙ h) (e' ∙ e) (r' ∙ r)
then_Evicting (gone l b h e r) (gone l' b' h' e' r') = gone (l' ∙ l) b h' e' r'

module _ (id : String) where
  evicted-Evicting :
      (j : String) (ids : List String) (s : MemoryRunStore)
      → Books (j ∷ ids) s
      → Evicting id s (evict_completed_run j s)
  unfolding evict_completed_run listed Agrees
  evicted-Evicting j ids s b = elim (Bool-cases (str_eq j id)) [
    | inl t ↦
        gone refl (b.completed_agree id ∙ rw t refl) (rw (find-remove j id s.completed, t) refl)
          (rw (find-remove j id s.events, t) refl) (rw (find-remove j id s.raw_bytes, t) refl)
    | inr f ↦
        untouched refl (rw (find-remove j id s.completed, f) refl)
          (rw (find-remove j id s.events, f) refl) (rw (find-remove j id s.raw_bytes, f) refl)
  ]

  expire-Evicting :
      (now : Time) (ttl : ℕ) (ids : List String) (s : MemoryRunStore)
      → Books ids s
      → Evicting id s (expire now ttl ids s)
  unfolding expire
  expire-Evicting now ttl [] s b = untouched refl refl refl refl
  expire-Evicting now ttl (j ∷ ids) s b =
      Holds-if (λ x. Evicting id s x) (expired now ttl (stored_at_of j s))
        (λ t.
          then_Evicting (evicted-Evicting j ids s b)
            (expire-Evicting now ttl ids (evict_completed_run j s) (evicted-Books j ids s b)))
        (λ f. untouched refl refl refl refl)

  shrink-Evicting :
      (limit : ℤ) (ids : List String) (s : MemoryRunStore)
      → Books ids s
      → Evicting id s (shrink limit ids s)
  unfolding shrink
  shrink-Evicting limit [] s b = untouched refl refl refl refl
  shrink-Evicting limit (j ∷ ids) s b =
      Holds-if (λ x. Evicting id s x) (over limit (length (j ∷ ids)))
        (λ t.
          then_Evicting (evicted-Evicting j ids s b)
            (shrink-Evicting limit ids (evict_completed_run j s) (evicted-Books j ids s b)))
        (λ f. untouched refl refl refl refl)

  expire_old-Evicting :
      (now : Time) (s : MemoryRunStore) → Ordered s → Evicting id s (expire_old now s)
  unfolding expire_old
  expire_old-Evicting now s b =
      Holds-if (λ x. Evicting id s x) (is_positive s.limits.completed_run_ttl)
        (λ t. expire-Evicting now (pos_part s.limits.completed_run_ttl) s.completed_order s b)
        (λ f. untouched refl refl refl refl)

  pub evict_completed-Evicting :
      (now : Time) (s : MemoryRunStore) → Ordered s → Evicting id s (evict_completed now s)
  unfolding evict_completed
  evict_completed-Evicting now s b =
      let left = expire_old now s in
      then_Evicting (expire_old-Evicting now s b) (
        shrink-Evicting left.limits.max_completed_runs left.completed_order left
          (expire_old-Ordered now s b))
