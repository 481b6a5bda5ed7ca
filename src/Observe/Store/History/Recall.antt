-- ===== src/Observe/Store/History/Recall.antt =====
-- What a MemoryRunStore (observability.go) tells of the events of a run, after any calls.
use mathlib.Core.List.{append_assoc, append-nil}
use agentwrap.Prelude.{
  Time, String, ◌≡◌, refl, sym, ap, subst, ◌∙◌, inl, inr, Bool, true, false, ◌&&◌, ◌||◌, not,
  Bool-cases, arith, Option, none, some, List, [], ◌∷◌, ◌++◌, map, str_eq, find, if◌then◌else◌,
}
use agentwrap.Dynamic.{AnyMap, no_fields, field}
use agentwrap.Contract.{terminal}
use agentwrap.Observe.Records.{RunEventRecord, clone_payload, clone_event_record}
use agentwrap.Observe.Store.{
  MemoryRunStoreLimits, MemoryRunStore, new_store, with_defaults, append_event, complete,
  upsert_run, get_completed_run, list_run_events,
}
use agentwrap.Observe.Store.Trim.{bytes, keep, LongestWithin, keep-LongestWithin}
use agentwrap.Observe.Store.Calls.{
  Call, upsert, append, get_completed, list_events, after_call, after_calls, appended_by, appended,
  ends, has, evicts, since_eviction, never_ended,
}
use agentwrap.Observe.Store.Completed.{Consistent, Holds-if, complete-Ordered}
use agentwrap.Observe.Store.Completed.Evicting.{Evicting, untouched, gone, evict_completed-Evicting}
use agentwrap.Observe.Store.Completed.Kept.{after_call-Consistent, new_store-Consistent}
use agentwrap.Observe.Store.History.{Held, has-complete, after_calls-Held}

clone-clone :
    (e : RunEventRecord) → clone_event_record (clone_event_record e) ≡ clone_event_record e
unfolding clone_event_record clone_payload
clone-clone e = ap (λ p. record e { payload = p }) (again e.payload)
  where
    again : (p : Option AnyMap) → clone_payload (clone_payload p) ≡ clone_payload p
    again none = refl
    again (some no_fields) = refl
    again (some (field k v m)) = refl

Copied : List RunEventRecord → Type 0
Copied es = map clone_event_record es ≡ es

Copied-append :
    (front back : List RunEventRecord) → Copied front → Copied back → Copied (front ++ back)
unfolding Copied
Copied-append [] back f b = b
Copied-append (e ∷ front) back f b = cc (f, Copied-append front back (cc f) b)

Copied-back : (front back : List RunEventRecord) → Copied (front ++ back) → Copied back
unfolding Copied
Copied-back [] back c = c
Copied-back (e ∷ front) back c = Copied-back front back (cc c)

appended_by-Copied : (id : String) (c : Call) → Copied (appended_by id c)
unfolding Copied appended_by
appended_by-Copied id (append e) = elim (Bool-cases (str_eq e.run_id id)) [
  | inl t ↦ rw (t, clone-clone e) refl
  | inr f ↦ rw f refl
]
appended_by-Copied id (upsert r stored_at now) = refl
appended_by-Copied id (get_completed j now) = refl
appended_by-Copied id (list_events j now) = refl

Copied-if : (b : Bool) (es : List RunEventRecord) → Copied es → Copied (if b then [] else es)
unfolding Copied
Copied-if true es c = refl
Copied-if false es c = c

since_eviction-Copied :
    (id : String) (cs : List Call) (s : MemoryRunStore) (since : List RunEventRecord)
    → Copied since
    → Copied (since_eviction id cs s since)
unfolding since_eviction
since_eviction-Copied id [] s since h = h
since_eviction-Copied id (c ∷ cs) s since h = since_eviction-Copied id cs (after_call c s) _ (
    Copied-if (evicts id c s) _
      (Copied-append since (appended_by id c) h (appended_by-Copied id c)))

Evicting-has :
    {id : String} {s s' : MemoryRunStore} → Evicting id s s' → has id s ≡ false → has id s' ≡ false
Evicting-has (untouched l h e r) n = h ∙ n
Evicting-has (gone l b h e r) n = h

-- A run without a record of its end gets none by a call that does not report it.
after_call-has :
    (id : String) (c : Call) (s : MemoryRunStore)
    → Consistent s
    → ends id c ≡ false
    → has id s ≡ false
    → has id (after_call c s) ≡ false
unfolding after_call upsert_run append_event get_completed_run list_run_events ends
after_call-has id (upsert r stored_at now) s c e n =
    Holds-if (λ x. has id x ≡ false) (terminal r.status)
      (λ t.
        Evicting-has
          (evict_completed-Evicting id now (complete r stored_at s)
            (complete-Ordered r stored_at s c.books))
          (has-complete id r stored_at s ∙ neither _ _ _ t e n))
      (λ f. n)
  where
    neither : (a b d : Bool) → a ≡ true → (a && b) ≡ false → d ≡ false → (b || d) ≡ false
    neither a b d t e n = ground arith
after_call-has id (append event) s c e n = n
after_call-has id (get_completed j now) s c e n =
    Evicting-has (evict_completed-Evicting id now s c.books) n
after_call-has id (list_events j now) s c e n =
    Evicting-has (evict_completed-Evicting id now s c.books) n

split_never : (a b : Bool) → (not a && b) ≡ true → (a ≡ false) × (b ≡ true)
split_never true b h = absurd (cc h)
split_never false b h = (refl, h)

never_evicted :
    (id : String) (cs : List Call) (s : MemoryRunStore) (since : List RunEventRecord)
    → Consistent s
    → has id s ≡ false
    → never_ended id cs ≡ true
    → since_eviction id cs s since ≡ since ++ appended id cs
unfolding since_eviction never_ended appended evicts
never_evicted id [] s since c n h = sym (append-nil since)
never_evicted id (d ∷ cs) s since c n h =
    let sides = split_never (ends id d) (never_ended id cs) h in
    rw (sides.0, n)
      (never_evicted id cs (after_call d s) (since ++ appended_by id d)
          (after_call-Consistent d s c) (after_call-has id d s c sides.0 n) sides.1
        ∙ append_assoc since (appended_by id d) (appended id cs))

after_calls-last :
    (cs : List Call) (c : Call) (s : MemoryRunStore)
    → after_calls (cs ++ c ∷ []) s ≡ after_call c (after_calls cs s)
unfolding after_calls
after_calls-last [] c s = refl
after_calls-last (d ∷ cs) c s = after_calls-last cs c (after_call d s)

new_store-Held :
    (limits : MemoryRunStoreLimits) (id : String)
    → Held (with_defaults limits) id [] (new_store limits)
unfolding new_store keep find bytes
new_store-Held limits id = record { same_limits = refl; held = refl; counted = refl }

-- The calls, and then the one that lists.
abbrev pub then_listed : List Call → String → Time → List Call
then_listed cs id now = cs ++ list_events id now ∷ []

-- What is listed of a run after these calls of a new store, the last of which lists.
pub record Recalled (limits : MemoryRunStoreLimits) (cs : List Call) (id : String)
    (out : List RunEventRecord) : Type 0 where
  last_ones : LongestWithin (with_defaults limits) (since_eviction id cs (new_store limits) []) out
  none_evicted :
      never_ended id cs ≡ true → since_eviction id cs (new_store limits) [] ≡ appended id cs

-- After any calls the events listed of a run are, of those appended under its identity since the run
-- was last evicted, as many of the last as the two limits leave room for, in order. A run is evicted
-- where a call leaves the store without the record of its end that was there or that the call stores;
-- a run that was never reported as ended is not evicted.
pub list_run_events-Recalled :
    (limits : MemoryRunStoreLimits) (cs : List Call) (id : String) (now : Time)
    → Recalled limits
        (then_listed cs id now)
        id
        (list_run_events id now (after_calls cs (new_store limits))).0
unfolding list_run_events after_call Copied new_store find
list_run_events-Recalled limits cs id now =
    let l = with_defaults limits in
    let s = new_store limits in
    let calls = then_listed cs id now in
    let since = since_eviction id calls s [] in
    let after =
      subst (Held l id since) (after_calls-last cs (list_events id now) s) (
        after_calls-Held l id calls [] s (new_store-Consistent limits)
          (new_store-Held limits id)) in
    let kept = keep-LongestWithin l since in
    let copied : map clone_event_record (keep l since) ≡ keep l since =
      Copied-back kept.dropped _
        (subst Copied kept.split (since_eviction-Copied id calls s [] refl)) in
    record {
      last_ones =
          subst (LongestWithin l since) (sym (ap (map clone_event_record) after.held ∙ copied))
            kept;
      none_evicted = never_evicted id calls s [] (new_store-Consistent limits) refl;
    }
