-- ===== src/Observe/Store/History.antt =====
-- The events that a MemoryRunStore (observability.go) holds of a run, against those that were
-- appended since its last eviction.
pub mod Recall
use mathlib.Core.List.{append-nil}
use agentwrap.Prelude.{
  ℕ, ◌+◌, Time, String, ◌≡◌, refl, sym, ap, subst, ◌∙◌, inl, inr, Bool, true, false, ◌&&◌, ◌||◌,
  not, is_none, Bool-cases, Option, none, some, or_default, List, [], ◌∷◌, ◌++◌, length, str_eq,
  eq_iff, find, insert, find-insert, if◌then◌else◌,
}
use agentwrap.Contract.{terminal}
use agentwrap.Observe.Records.{RunEventRecord, RunRecord, clone_event_record}
use agentwrap.Observe.Store.{
  MemoryRunStoreLimits, MemoryRunStore, events_of, bytes_of, trim, append_event, evict_completed,
  complete, upsert_run, get_completed_run, list_run_events,
}
use agentwrap.Observe.Store.Trim.{bytes, keep, trim-append}
use agentwrap.Observe.Store.Calls.{
  Call, upsert, append, get_completed, list_events, after_call, after_calls, appended_by, ends, has,
  evicts, since_eviction,
}
use agentwrap.Observe.Store.Completed.{Consistent, Holds-if, complete-Ordered}
use agentwrap.Observe.Store.Completed.Evicting.{Evicting, untouched, gone, evict_completed-Evicting}
use agentwrap.Observe.Store.Completed.Kept.{after_call-Consistent}

-- Of these events under an identity the store has those that `keep` keeps.
pub record Held (l : MemoryRunStoreLimits) (id : String) (since : List RunEventRecord)
    (s : MemoryRunStore) : Type 0 where
  pub same_limits : s.limits ≡ l
  pub held : events_of id s ≡ keep l since
  counted : bytes_of id s ≡ bytes (keep l since)

and_self : (b : Bool) → (b && not b) ≡ false
and_self true = refl
and_self false = refl

pub has-complete :
    (id : String) (r : RunRecord) (stored_at : Time) (s : MemoryRunStore)
    → has id (complete r stored_at s) ≡ (str_eq r.run_id id || has id s)
unfolding complete
has-complete id r stored_at s = elim (Bool-cases (str_eq r.run_id id)) [
  | inl t ↦ rw (find-insert r.run_id id r s.completed, t) refl
  | inr f ↦ rw (find-insert r.run_id id r s.completed, f) refl
]

module _ (l : MemoryRunStoreLimits) (id : String) where
  -- The events after a call that evicts the run, or does not.
  Held-if :
      (b : Bool) {since : List RunEventRecord} {s : MemoryRunStore}
      → (b ≡ true → Held l id [] s)
      → (b ≡ false → Held l id since s)
      → Held l id (if b then [] else since) s
  Held-if true hx hy = hx refl
  Held-if false hx hy = hy refl

  -- An eviction that finds the run's record, or not.
  evicting-Held :
      (since : List RunEventRecord) (s s' : MemoryRunStore)
      → Evicting id s s'
      → Held l id since s
      → Held l id (if has id s && not (has id s') then [] else since) s'
  unfolding keep bytes
  evicting-Held since s s' (untouched same there events raw) h =
      Held-if (has id s && not (has id s')) (λ t. absurd (cc (t, there, and_self (has id s))))
        (λ f. record {
          same_limits = same ∙ h.same_limits;
          held = ap (λ o. or_default o []) events ∙ h.held;
          counted = ap (λ o. or_default o 0) raw ∙ h.counted;
        })
  evicting-Held since s s' (gone same was there events raw) h =
      Held-if (has id s && not (has id s'))
        (λ t. record {
          same_limits = same ∙ h.same_limits;
          held = ap (λ o. or_default o []) events;
          counted = ap (λ o. or_default o 0) raw;
        })
        (λ f. absurd (both (has id s) (has id s') was there f))
    where
      both : (a b : Bool) → a ≡ true → b ≡ false → (a && not b) ≡ false → ⊥
      both true false e e' f = cc f
      both true true e e' f = cc e'
      both false b e e' f = cc e

  append_event-Held :
      (e : RunEventRecord) (since : List RunEventRecord) (s : MemoryRunStore)
      → Held l id since s
      → Held l id (since ++ appended_by id (append e)) (append_event e s)
  unfolding append_event appended_by
  append_event-Held e since s k = elim (Bool-cases (str_eq e.run_id id)) [
    | inl t ↦
        let own : e.run_id ≡ id = (eq_iff e.run_id id).0 t in
        let stored = clone_event_record e in
        let trimmed =
          trim-append l since (events_of e.run_id s) (bytes_of e.run_id s) stored
            (ap (λ j. events_of j s) own ∙ k.held) (ap (λ j. bytes_of j s) own ∙ k.counted) in
        let at_limits : trim s.limits (events_of e.run_id s ++ stored ∷ [])
              (bytes_of e.run_id s + length stored.raw_data)
            ≡ (keep l (since ++ stored ∷ []), bytes (keep l (since ++ stored ∷ []))) =
          rw k.same_limits trimmed in
        rw t (record {
          same_limits = k.same_limits;
          held = rw (find-insert e.run_id id, t) (ap (λ p. p.0) at_limits);
          counted = rw (find-insert e.run_id id, t) (ap (λ p. p.1) at_limits);
        })
    | inr f ↦
        let same : since ++ appended_by id (append e) ≡ since = rw f (append-nil since) in
        subst (λ es. Held l id es (append_event e s)) (sym same)
          (record {
            same_limits = k.same_limits;
            held = rw (find-insert e.run_id id, f) k.held;
            counted = rw (find-insert e.run_id id, f) k.counted;
          })
  ]

  -- After a call that appends nothing.
  nothing_appended :
      (b : Bool) (since : List RunEventRecord) (s : MemoryRunStore)
      → Held l id (if b then [] else since) s
      → Held l id (if b then [] else since ++ []) s
  nothing_appended true since s h = h
  nothing_appended false since s h = subst (λ es. Held l id es s) (sym (append-nil since)) h

  upsert_run-Held :
      (r : RunRecord) (stored_at now : Time) (since : List RunEventRecord) (s : MemoryRunStore)
      → Consistent s
      → Held l id since s
      → Held l id
          (if ((terminal r.status && str_eq r.run_id id) || has id s)
              && not (has id (upsert_run r stored_at now s))
            then []
            else since)
          (upsert_run r stored_at now s)
  unfolding upsert_run complete
  upsert_run-Held r stored_at now since s c h =
      let kept = λ (p : Bool) (x : MemoryRunStore).
        Held l id (if p && not (has id x) then [] else since) x in
      let told = λ (b : Bool). (b && str_eq r.run_id id) || has id s in
      let stored = complete r stored_at s in
      let ended = evict_completed now stored in
      let going_on = record s { active = insert r.run_id r s.active } in
      Holds-if (λ x. kept (told (terminal r.status)) x) (terminal r.status)
        (λ t.
          subst (λ p. kept p ended) (has-complete id r stored_at s ∙ sym (ap told t))
            (evicting-Held since stored ended
              (evict_completed-Evicting id now stored (complete-Ordered r stored_at s c.books))
              (record { same_limits = h.same_limits; held = h.held; counted = h.counted })))
        (λ f.
          subst (λ p. kept p going_on) (sym (ap told f))
            (evicting-Held since s going_on (untouched refl refl refl refl) h))

  after_call-Held :
      (c : Call) (since : List RunEventRecord) (s : MemoryRunStore)
      → Consistent s
      → Held l id since s
      → Held l id (if evicts id c s then [] else since ++ appended_by id c) (after_call c s)
  unfolding after_call get_completed_run list_run_events appended_by ends evicts append_event
  after_call-Held (upsert r stored_at now) since s c h =
      nothing_appended _ since _ (upsert_run-Held r stored_at now since s c h)
  after_call-Held (append e) since s c h =
      Held-if (has id s && not (has id s)) (λ t. absurd (cc (t, and_self (has id s))))
        (λ f. append_event-Held e since s h)
  after_call-Held (get_completed j now) since s c h =
      nothing_appended _ since _
        (evicting-Held since s _ (evict_completed-Evicting id now s c.books) h)
  after_call-Held (list_events j now) since s c h =
      nothing_appended _ since _
        (evicting-Held since s _ (evict_completed-Evicting id now s c.books) h)

  pub after_calls-Held :
      (cs : List Call) (since : List RunEventRecord) (s : MemoryRunStore)
      → Consistent s
      → Held l id since s
      → Held l id (since_eviction id cs s since) (after_calls cs s)
  unfolding after_calls since_eviction
  after_calls-Held [] since s c h = h
  after_calls-Held (d ∷ cs) since s c h =
      after_calls-Held cs _ (after_call d s) (after_call-Consistent d s c)
        (after_call-Held d since s c h)
