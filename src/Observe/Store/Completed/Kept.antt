-- ===== src/Observe/Store/Completed/Kept.antt =====
-- The completed runs that a MemoryRunStore (observability.go) tells of, after any calls.
use agentwrap.Prelude.{
  ℕ, zero, suc, ◌+◌, ◌≤◌, ℤ, pos, negsuc, Time, String, ◌≡◌, ◌⊎◌, refl, sym, ap, subst, ◌∙◌, inl,
  inr, true, false, not, is_none, Bool-cases, or_false, Option, none, some, or_default, List, [],
  ◌∷◌, ◌++◌, length, arith, str_eq, eq_iff, find, find-insert, find-remove, is_positive, pos_part,
  if◌then◌else◌,
}
use agentwrap.Contract.{terminal}
use agentwrap.Observe.Records.{RunRecord}
use agentwrap.Observe.Store.{
  MemoryRunStoreLimits, MemoryRunStore, new_store, with_defaults, over, or_limit, stored_at_of,
  append_event, evict_completed_run, expired, expire, shrink, expire_old, evict_completed, ordered,
  complete, upsert_run, get_completed_run, list_run_events,
}
use agentwrap.Observe.Store.Trim.{nothing_over, over_mono}
use agentwrap.Observe.Store.Calls.{
  Call, upsert, append, get_completed, list_events, after_call, after_calls,
}
use agentwrap.Observe.Store.Completed.Evicting.{same_limits, evict_completed-Evicting}
use agentwrap.Observe.Store.Completed.{
  listed, Agrees, no_one, Consistent, Holds-if, evict_completed-Consistent, complete-Ordered,
}

same_books :
    (s s' : MemoryRunStore)
    → s'.completed ≡ s.completed
    → s'.completed_stored_at ≡ s.completed_stored_at
    → s'.completed_order ≡ s.completed_order
    → s'.limits ≡ s.limits
    → Consistent s
    → Consistent s'
same_books s s' completed stored order limits c = record {
  books = record {
    completed_agree = rw (completed, order) c.books.completed_agree;
    stored_agree = rw (stored, order) c.books.stored_agree;
    once = rw order c.books.once;
  };
  few = rw (order, limits) c.few;
}

pub after_call-Consistent :
    (c : Call) (s : MemoryRunStore) → Consistent s → Consistent (after_call c s)
unfolding after_call append_event upsert_run get_completed_run list_run_events
after_call-Consistent (upsert r stored_at now) s c =
    Holds-if Consistent (terminal r.status)
      (λ t. evict_completed-Consistent now _ (complete-Ordered r stored_at s c.books))
      (λ f. same_books s _ refl refl refl refl c)
after_call-Consistent (append event) s c = same_books s _ refl refl refl refl c
after_call-Consistent (get_completed j now) s c = evict_completed-Consistent now s c.books
after_call-Consistent (list_events j now) s c = evict_completed-Consistent now s c.books

after_call-limits :
    (c : Call) (s : MemoryRunStore) → Consistent s → (after_call c s).limits ≡ s.limits
unfolding after_call append_event upsert_run get_completed_run list_run_events complete
after_call-limits (upsert r stored_at now) s c =
    Holds-if (λ x. x.limits ≡ s.limits) (terminal r.status)
      (λ t. same_limits (
        evict_completed-Evicting r.run_id now (complete r stored_at s)
          (complete-Ordered r stored_at s c.books)))
      (λ f. refl)
after_call-limits (append event) s c = refl
after_call-limits (get_completed j now) s c = same_limits (evict_completed-Evicting j now s c.books)
after_call-limits (list_events j now) s c = same_limits (evict_completed-Evicting j now s c.books)

limits_after :
    (cs : List Call) (s : MemoryRunStore) → Consistent s → (after_calls cs s).limits ≡ s.limits
unfolding after_calls
limits_after [] s c = refl
limits_after (d ∷ cs) s c =
    limits_after cs (after_call d s) (after_call-Consistent d s c) ∙ after_call-limits d s c

after_calls_from :
    (cs : List Call) (s : MemoryRunStore) → Consistent s → Consistent (after_calls cs s)
unfolding after_calls
after_calls_from [] s c = c
after_calls_from (d ∷ cs) s c = after_calls_from cs (after_call d s) (after_call-Consistent d s c)

pub new_store-Consistent : (limits : MemoryRunStoreLimits) → Consistent (new_store limits)
unfolding new_store Agrees find listed
new_store-Consistent limits = record {
  books = record { completed_agree = λ id. refl; stored_agree = λ id. refl; once = no_one };
  few = nothing_over (with_defaults limits).max_completed_runs;
}

after_calls-limits :
    (limits : MemoryRunStoreLimits) (cs : List Call)
    → (after_calls cs (new_store limits)).limits ≡ with_defaults limits
unfolding new_store
after_calls-limits limits cs = limits_after cs (new_store limits) (new_store-Consistent limits)

-- After any calls the completed runs, and the instants at which they were stored, are those of the
-- eviction order, which has each of them once and no more than MaxCompletedRuns of them.
pub after_calls-Consistent :
    (limits : MemoryRunStoreLimits) (cs : List Call)
    → Consistent (after_calls cs (new_store limits))
after_calls-Consistent limits cs =
    after_calls_from cs (new_store limits) (new_store-Consistent limits)

-- Evicting from the front does not reach the run: there is room, or another run stands in front.
data Guarded (limit : ℤ) (id : String) : List String → Type 0 where
  room : {ids : List String} → over limit (length ids) ≡ false → Guarded limit id ids
  behind :
      {j : String} {ids : List String}
      → str_eq j id ≡ false
      → Guarded limit id ids
      → Guarded limit id (j ∷ ids)

Guarded-tail :
    (limit : ℤ) (id j : String) (ids : List String)
    → Guarded limit id (j ∷ ids)
    → Guarded limit id ids
Guarded-tail limit id j ids (room f) =
    room (over_mono limit (length ids) (suc (length ids)) (omega arith) f)
Guarded-tail limit id j ids (behind e g) = g

Guarded-snoc :
    (limit : ℤ) (id : String) (ids : List String)
    → over limit 1 ≡ false
    → listed id ids ≡ false
    → Guarded limit id (ids ++ id ∷ [])
unfolding listed
Guarded-snoc limit id [] one n = room one
Guarded-snoc limit id (j ∷ ids) one n =
    let sides = or_false (str_eq j id) (listed id ids) n in
    behind sides.0 (Guarded-snoc limit id ids one sides.1)

not_expired : (stored now : Time) (ttl : ℕ) → now ≤ stored + ttl → expired now ttl stored ≡ false
not_expired stored now ttl young = ground (arith)

equal_self : (a : String) → str_eq a a ≡ true
equal_self a = (eq_iff a a).1 refl

module _ (l : MemoryRunStoreLimits) (r : RunRecord) (stored_at : Time) where
  -- The store has the record, as stored at the instant.
  record Held (s : MemoryRunStore) : Type 0 where
    same_limits : s.limits ≡ l
    there : find r.run_id s.completed ≡ some r
    when : find r.run_id s.completed_stored_at ≡ some stored_at

  -- It is not so long ago that the record was stored.
  abbrev pub Young : Time → Type 0
  Young now =
      is_positive l.completed_run_ttl ≡ true → now ≤ stored_at + pos_part l.completed_run_ttl

  evicted-Held :
      (j : String) (s : MemoryRunStore)
      → str_eq j r.run_id ≡ false
      → Held s
      → Held (evict_completed_run j s)
  unfolding evict_completed_run
  evicted-Held j s other h = record {
    same_limits = h.same_limits;
    there = rw (find-remove j r.run_id s.completed, other) h.there;
    when = rw (find-remove j r.run_id s.completed_stored_at, other) h.when;
  }

  Safe : MemoryRunStore → Type 0
  Safe s = Held s × Guarded l.max_completed_runs r.run_id s.completed_order

  expire-Safe :
      (now : Time) (ids : List String) (s : MemoryRunStore)
      → now ≤ stored_at + pos_part l.completed_run_ttl
      → Held s
      → Guarded l.max_completed_runs r.run_id ids
      → Safe (expire now (pos_part l.completed_run_ttl) ids s)
  unfolding expire Safe
  expire-Safe now [] s young h g =
      (record { same_limits = h.same_limits; there = h.there; when = h.when }, g)
  expire-Safe now (j ∷ ids) s young h g =
      Holds-if Safe (expired now (pos_part l.completed_run_ttl) (stored_at_of j s))
        (λ t.
          expire-Safe now ids (evict_completed_run j s) young (evicted-Held j s (other t) h)
            (Guarded-tail _ _ j ids g))
        (λ f. (record { same_limits = h.same_limits; there = h.there; when = h.when }, g))
    where
      other :
          expired now (pos_part l.completed_run_ttl) (stored_at_of j s) ≡ true
          → str_eq j r.run_id ≡ false
      other t = elim (Bool-cases (str_eq j r.run_id)) [
        | inr e ↦ e
        | inl e ↦
            let fresh : stored_at_of j s ≡ stored_at =
              ap (λ k. stored_at_of k s) ((eq_iff j r.run_id).0 e)
              ∙ ap (λ o. or_default o 0) h.when in
            absurd (cc (t, fresh, not_expired stored_at now (pos_part l.completed_run_ttl) young))
      ]

  shrink-Safe :
      (ids : List String) (s : MemoryRunStore)
      → Held s
      → Guarded l.max_completed_runs r.run_id ids
      → Safe (shrink l.max_completed_runs ids s)
  unfolding shrink Safe
  shrink-Safe [] s h g = (record { same_limits = h.same_limits; there = h.there; when = h.when }, g)
  shrink-Safe (j ∷ ids) s h (room f) =
      rw f (record { same_limits = h.same_limits; there = h.there; when = h.when }, room f)
  shrink-Safe (j ∷ ids) s h (behind e g) =
      Holds-if Safe (over l.max_completed_runs (length (j ∷ ids)))
        (λ t. shrink-Safe ids (evict_completed_run j s) (evicted-Held j s e h) g)
        (λ f. (record { same_limits = h.same_limits; there = h.there; when = h.when }, behind e g))

  evict_completed-Safe :
      (now : Time) (s : MemoryRunStore) → Young now → Safe s → Safe (evict_completed now s)
  unfolding evict_completed expire_old Safe
  evict_completed-Safe now s young k =
      let left = expired_first (Bool-cases (is_positive l.completed_run_ttl)) in
      subst
        (λ m.
          Safe (shrink m.max_completed_runs (expire_old now s).completed_order (expire_old now s)))
        (sym left.0.same_limits) (shrink-Safe _ (expire_old now s) left.0 left.1)
    where
      expired_first :
          (is_positive l.completed_run_ttl ≡ true) ⊎ (is_positive l.completed_run_ttl ≡ false)
          → Safe (expire_old now s)
      expired_first (inl t) =
          subst
            (λ m. Safe (
              if is_positive m.completed_run_ttl
              then expire now (pos_part m.completed_run_ttl) s.completed_order s
              else s))
            (sym k.0.same_limits) (rw t (expire-Safe now s.completed_order s (young t) k.0 k.1))
      expired_first (inr f) =
          subst
            (λ m. Safe (
              if is_positive m.completed_run_ttl
              then expire now (pos_part m.completed_run_ttl) s.completed_order s
              else s))
            (sym k.0.same_limits) (rw f k)

  complete-Safe :
      (s : MemoryRunStore)
      → s.limits ≡ l
      → over l.max_completed_runs 1 ≡ false
      → Consistent s
      → Safe (complete r stored_at s)
  unfolding complete Safe Agrees ordered
  complete-Safe s same one c = (
    record {
      same_limits = same;
      there = rw (find-insert r.run_id r.run_id r s.completed, equal_self r.run_id) refl;
      when =
          rw (find-insert r.run_id r.run_id stored_at s.completed_stored_at, equal_self r.run_id)
            refl;
    },
    guarded (find r.run_id s.completed) (c.books.completed_agree r.run_id),
  )
    where
      guarded :
          (o : Option RunRecord)
          → not (is_none o) ≡ listed r.run_id s.completed_order
          → Guarded l.max_completed_runs r.run_id (ordered o r.run_id s.completed_order)
      guarded none e = Guarded-snoc _ _ s.completed_order one (sym e)
      guarded (some old) e =
          room
            (subst (λ m. over m.max_completed_runs (length s.completed_order) ≡ false) same c.few)

one_fits : (m d : ℤ) → over d 1 ≡ false → over (or_limit m d) 1 ≡ false
one_fits (pos zero) d e = e
one_fits (pos (suc n)) d e = ground (arith)
one_fits (negsuc k) d e = refl

-- After any calls, if a record of a run that has ended is stored and, until then and until the store
-- is asked for it next, no longer than the CompletedRunTTL passes, where it is positive, the store
-- gives back the record. The limits may be any: a MaxCompletedRuns of 0 stands for the default.
pub get_completed_run-upsert_run :
    (limits : MemoryRunStoreLimits) (cs : List Call) (r : RunRecord) (stored_at now later : Time)
    → terminal r.status ≡ true
    → Young (with_defaults limits) r stored_at now
    → Young (with_defaults limits) r stored_at later
    → (get_completed_run r.run_id later
        (upsert_run r stored_at now (after_calls cs (new_store limits)))).0
      ≡ some r
unfolding get_completed_run upsert_run Safe with_defaults
get_completed_run-upsert_run limits cs r stored_at now later t young young_later =
    let l = with_defaults limits in
    let s = after_calls cs (new_store limits) in
    let stored =
      complete-Safe l r stored_at s (after_calls-limits limits cs)
        (one_fits limits.max_completed_runs (pos 128) refl) (after_calls-Consistent limits cs) in
    let after = evict_completed-Safe l r stored_at now (complete r stored_at s) young stored in
    rw t (evict_completed-Safe l r stored_at later _ young_later after).0.there
