-- ===== src/Observe/Store/Completed.antt =====
-- Which completed runs a MemoryRunStore (observability.go) holds.
pub mod Evicting
pub mod Kept
use agentwrap.Prelude.{
  ℕ, suc, ◌+◌, ◌≤◌, ltb, ℤ, pos, negsuc, Time, String, ◌≡◌, ◌≢◌, refl, sym, ap, subst, ◌∙◌, inl,
  inr, Bool, true, false, ◌&&◌, ◌||◌, not, is_none, Bool-cases, or_false, Option, none, some, List,
  [], ◌∷◌, ◌++◌, length, length-append, arith, str_eq, eq_iff, Table, find, insert, remove,
  find-insert, find-remove, is_positive, pos_part, if◌then◌else◌,
}
use agentwrap.Contract.{terminal}
use agentwrap.Observe.Records.{RunEventRecord, RunRecord}
use agentwrap.Observe.Store.{
  MemoryRunStoreLimits, MemoryRunStore, new_store, with_defaults, over, stored_at_of, append_event,
  evict_completed_run, expired, expire, shrink, expire_old, evict_completed, ordered, complete,
  upsert_run, get_completed_run, list_run_events,
}
use agentwrap.Observe.Store.Trim.{nothing_over}
use agentwrap.Observe.Store.Calls.{
  Call, upsert, append, get_completed, list_events, after_call, after_calls,
}

unfoldable pub listed : String → List String → Bool
listed id [] = false
listed id (j ∷ js) = str_eq j id || listed id js

-- The keys of the table are those of the list.
Agrees {ℓ} : {A : Type ℓ} → Table A → List String → Type 0
Agrees t order = (id : String) → not (is_none (find id t)) ≡ listed id order

-- No text stands in the list twice.
pub data Once : List String → Type 0 where
  no_one : Once []
  once_more : {j : String} {js : List String} → listed j js ≡ false → Once js → Once (j ∷ js)

-- Both tables of completed runs have the runs of the order.
pub record Books (order : List String) (s : MemoryRunStore) : Type 0 where
  completed_agree : Agrees s.completed order
  stored_agree : Agrees s.completed_stored_at order
  once : Once order

-- The order lists each completed run once, and no more runs than the limit says.
pub record Consistent (s : MemoryRunStore) : Type 0 where
  pub books : Books s.completed_order s
  few : over s.limits.max_completed_runs (length s.completed_order) ≡ false

module _ {ℓ} {A : Type ℓ} where
  remove-Agrees :
      (j : String) (js : List String) (t : Table A)
      → Agrees t (j ∷ js)
      → listed j js ≡ false
      → Agrees (remove j t) js
  unfolding Agrees listed
  remove-Agrees j js t a fresh id = elim (Bool-cases (str_eq j id)) [
    | inl e ↦
        rw (find-remove j id t, e)
          (subst (λ k. false ≡ listed k js) ((eq_iff j id).0 e) (sym fresh))
    | inr f ↦ rw (find-remove j id t, f) (a id ∙ rw f refl)
  ]

or_swap : (a b c : Bool) → (a || (b || c)) ≡ (b || (a || c))
or_swap true true c = refl
or_swap true false c = refl
or_swap false b c = refl

listed-snoc :
    (id j : String) (order : List String)
    → listed id (order ++ j ∷ []) ≡ (str_eq j id || listed id order)
unfolding listed
listed-snoc id j [] = refl
listed-snoc id j (i ∷ order) =
    ap (λ b. str_eq i id || b) (listed-snoc id j order) ∙ or_swap (str_eq i id) (str_eq j id) _

listed-ordered :
    (o : Option RunRecord) (id j : String) (order : List String)
    → not (is_none o) ≡ listed j order
    → listed id (ordered o j order) ≡ (str_eq j id || listed id order)
unfolding ordered
listed-ordered none id j order e = listed-snoc id j order
listed-ordered (some r) id j order e = elim (Bool-cases (str_eq j id)) [
  | inl t ↦ rw t (subst (λ k. listed k order ≡ true) ((eq_iff j id).0 t) (sym e))
  | inr f ↦ rw f refl
]

insert-Agrees {ℓ} :
    {A : Type ℓ} (o : Option RunRecord) (j : String) (v : A) (order : List String) (t : Table A)
    → not (is_none o) ≡ listed j order
    → Agrees t order
    → Agrees (insert j v t) (ordered o j order)
unfolding Agrees
insert-Agrees o j v order t e a id = elim (Bool-cases (str_eq j id)) [
  | inl y ↦ rw (find-insert j id v t, listed-ordered o id j order e, y) refl
  | inr n ↦ rw (find-insert j id v t, listed-ordered o id j order e, n) (a id)
]

Once-snoc :
    (j : String) (order : List String)
    → listed j order ≡ false
    → Once order
    → Once (order ++ j ∷ [])
unfolding listed
Once-snoc j [] f no_one = once_more refl no_one
Once-snoc j (i ∷ order) f (once_more h o) =
    let sides = or_false (str_eq i j) (listed j order) f in
    let apart : str_eq j i ≡ false = ground (arith, eq_iff i j, eq_iff j i) in
    once_more (listed-snoc i j order ∙ rw (apart, h) refl) (Once-snoc j order sides.1 o)

ordered-Once :
    (o : Option RunRecord) (j : String) (order : List String)
    → not (is_none o) ≡ listed j order
    → Once order
    → Once (ordered o j order)
unfolding ordered
ordered-Once none j order e once = Once-snoc j order (sym e) once
ordered-Once (some r) j order e once = once

evicted-Books :
    (j : String) (ids : List String) (s : MemoryRunStore)
    → Books (j ∷ ids) s
    → Books ids (evict_completed_run j s)
unfolding evict_completed_run
evicted-Books j ids s b = record {
  completed_agree = remove-Agrees j ids s.completed b.completed_agree (first b.once);
  stored_agree = remove-Agrees j ids s.completed_stored_at b.stored_agree (first b.once);
  once = others b.once;
}
  where
    first : Once (j ∷ ids) → listed j ids ≡ false
    first (once_more f o) = f

    others : Once (j ∷ ids) → Once ids
    others (once_more f o) = o

abbrev pub Ordered : MemoryRunStore → Type 0
Ordered s = Books s.completed_order s

reordered :
    (ids : List String) (s : MemoryRunStore)
    → Books ids s
    → Ordered (record s { completed_order = ids })
reordered ids s b = record {
  completed_agree = b.completed_agree;
  stored_agree = b.stored_agree;
  once = b.once;
}

pub Holds-if {ℓ} :
    (P : MemoryRunStore → Type ℓ) (b : Bool) {x y : MemoryRunStore}
    → (b ≡ true → P x)
    → (b ≡ false → P y)
    → P (if b then x else y)
Holds-if P true hx hy = hx refl
Holds-if P false hx hy = hy refl

expire-Ordered :
    (now : Time) (ttl : ℕ) (ids : List String) (s : MemoryRunStore)
    → Books ids s
    → Ordered (expire now ttl ids s)
unfolding expire
expire-Ordered now ttl [] s b = reordered [] s b
expire-Ordered now ttl (j ∷ ids) s b =
    Holds-if Ordered (expired now ttl (stored_at_of j s))
      (λ t. expire-Ordered now ttl ids (evict_completed_run j s) (evicted-Books j ids s b))
      (λ f. reordered (j ∷ ids) s b)

expire_old-Ordered : (now : Time) (s : MemoryRunStore) → Ordered s → Ordered (expire_old now s)
unfolding expire_old
expire_old-Ordered now s b =
    Holds-if Ordered (is_positive s.limits.completed_run_ttl)
      (λ t. expire-Ordered now (pos_part s.limits.completed_run_ttl) s.completed_order s b) (λ f. b)

shrink-Consistent :
    (limit : ℤ) (ids : List String) (s : MemoryRunStore)
    → s.limits.max_completed_runs ≡ limit
    → Books ids s
    → Consistent (shrink limit ids s)
unfolding shrink
shrink-Consistent limit [] s e b = record {
  books = reordered [] s b;
  few = nothing_over s.limits.max_completed_runs;
}
shrink-Consistent limit (j ∷ ids) s e b =
    Holds-if Consistent (over limit (length (j ∷ ids)))
      (λ t. shrink-Consistent limit ids (evict_completed_run j s) e (evicted-Books j ids s b))
      (λ f. record {
        books = reordered (j ∷ ids) s b;
        few = subst (λ m. over m (length (j ∷ ids)) ≡ false) (sym e) f;
      })

evict_completed-Consistent :
    (now : Time) (s : MemoryRunStore) → Ordered s → Consistent (evict_completed now s)
unfolding evict_completed
evict_completed-Consistent now s b =
    shrink-Consistent _ _ (expire_old now s) refl (expire_old-Ordered now s b)

pub complete-Ordered :
    (r : RunRecord) (stored_at : Time) (s : MemoryRunStore)
    → Ordered s
    → Ordered (complete r stored_at s)
unfolding complete Agrees
complete-Ordered r stored_at s b =
    let e = b.completed_agree r.run_id in
    record {
      completed_agree =
          insert-Agrees (find r.run_id s.completed) r.run_id r s.completed_order s.completed e
            b.completed_agree;
      stored_agree =
          insert-Agrees (find r.run_id s.completed) r.run_id stored_at s.completed_order
            s.completed_stored_at e b.stored_agree;
      once = ordered-Once (find r.run_id s.completed) r.run_id s.completed_order e b.once;
    }
