-- ===== src/Pricing/Store/Ensured.antt =====
-- What Ensure of pricing.go promises of the table that it returns.
use agentwrap.Prelude.{
  Time, is_zero_time, String, ◌≡◌, refl, inl, inr, Bool, true, false, ◌&&◌, ◌||◌, not, Bool-cases,
  or_false, and_left, and_right, Option, none, some, is_nil, is_empty, Table, arith, if◌then◌else◌,
}
use agentwrap.Pricing.Rates.{Numbers, ModelRates, parse_rate_table, parse_rate_table-some}
use agentwrap.Pricing.Store.{
  rates_status_fresh, rates_status_cached, young, RatesSnapshot, RateTableStore, Environment,
  info_of, unavailable, Answer, usable, from_snapshot, fall_back, load_snapshot, after_fetch,
  refresh, with_snapshot, ensure, apply_rates,
}

module _ (N : Numbers) where
  -- The store has a table, and it is not empty.
  abbrev pub Priced : RateTableStore N → Type 0
  Priced s = (s.resolved ≡ true) × (is_nil s.table ≡ false)

  -- The store has a table only if it is not empty.
  abbrev pub Valid : RateTableStore N → Type 0
  Valid s = s.resolved ≡ true → is_nil s.table ≡ false

  -- The store is as it was, or has what the snapshot's file says.
  pub data Held (stale : Option (RatesSnapshot N)) (s : RateTableStore N)
      : RateTableStore N → Type 0 where
    kept : Held stale s s
    read_back :
        {after : RateTableStore N} {snapshot : RatesSnapshot N}
        → stale ≡ some snapshot
        → after.table ≡ snapshot.rates
        → after.fetched_at ≡ snapshot.snapshot_fetched_at
        → after.source ≡ snapshot.snapshot_source
        → Held stale s after

  -- What is returned of a store that was `s` and now is `after`: at an instant, with the snapshot that
  -- is there, what a fetch gives, and the instant after it.
  pub data Outcome (now : Time) (stale : Option (RatesSnapshot N))
      (fetched : Option (Table (ModelRates N.F))) (later : Time) (s : RateTableStore N)
      : RateTableStore N × Answer N → Type 0 where
    still_fresh :
        {after : RateTableStore N}
        → young now after.fetched_at ≡ true
        → Held stale s after
        → Priced after
        → Outcome now stale fetched later s
            (after, (some after.table, info_of N rates_status_fresh after))
    newly_fetched :
        {after : RateTableStore N}
        → fetched ≡ some after.table
        → after.fetched_at ≡ later
        → after.source ≡ s.url
        → Priced after
        → Outcome now stale fetched later s
            (after, (some after.table, info_of N rates_status_fresh after))
    out_of_date :
        {after : RateTableStore N}
        → fetched ≡ none
        → young now after.fetched_at ≡ false
        → Held stale s after
        → Priced after
        → Outcome now stale fetched later s
            (after, (some after.table, info_of N rates_status_cached after))
    not_available :
        fetched ≡ none
        → stale ≡ none
        → s.resolved ≡ false
        → Outcome now stale fetched later s (s, (none, unavailable N s))

  -- The snapshot that is used has rates.
  data Good : Option (RatesSnapshot N) → Type 0 where
    no_snapshot : Good none
    with_rates : {snapshot : RatesSnapshot N} → is_nil snapshot.rates ≡ false → Good (some snapshot)

  -- A branch on a Boolean.
  either :
      {A : Type 0} (P : A → Type 0) (b : Bool) (x y : A)
      → (b ≡ true → P x)
      → (b ≡ false → P y)
      → P (if b then x else y)
  either P true x y hx hy = hx refl
  either P false x y hx hy = hy refl

  usable-Good : (found : Option (RatesSnapshot N)) → Good (usable N found)
  unfolding usable
  usable-Good none = no_snapshot
  usable-Good (some snapshot) =
      elim (Bool-cases (
        not snapshot.version_is_1
        || is_nil snapshot.rates
        || is_zero_time snapshot.snapshot_fetched_at)) [
          | inl t ↦ rw t no_snapshot
          | inr f ↦
              let sides = or_false (not snapshot.version_is_1 || is_nil snapshot.rates) _ f in
              rw f (
                with_rates (or_false (not snapshot.version_is_1) (is_nil snapshot.rates) sides.0).1)
        ]

  applied-Priced :
      (fetched_at : Time) (table : Table (ModelRates N.F)) (source : String) (s : RateTableStore N)
      → is_nil table ≡ false
      → Priced (apply_rates N fetched_at table source s)
  unfolding apply_rates
  applied-Priced fetched_at table source s e = (rw e refl, e)

  -- Neither the snapshot nor the store's own table is fresh.
  record Old (now : Time) (stale : Option (RatesSnapshot N)) (s : RateTableStore N) : Type 0 where
    old_snapshot :
        (snapshot : RatesSnapshot N)
        → stale ≡ some snapshot
        → young now snapshot.snapshot_fetched_at ≡ false
    old_table : s.resolved ≡ true → young now s.fetched_at ≡ false

  fall_back-Outcome :
      (now later : Time) (stale : Option (RatesSnapshot N)) (s : RateTableStore N)
      → Valid s
      → Good stale
      → Old now stale s
      → Outcome now stale none later s (fall_back N stale s)
  unfolding fall_back from_snapshot apply_rates
  fall_back-Outcome now later (some stale) s valid (with_rates good) old =
      out_of_date refl (old.old_snapshot stale refl) (read_back refl refl refl refl)
        (applied-Priced stale.snapshot_fetched_at stale.rates stale.snapshot_source s good)
  fall_back-Outcome now later none s valid good old =
      either (Outcome now none none later s) s.resolved _ _
        (λ t. out_of_date refl (old.old_table t) kept (t, valid t)) (λ f. not_available refl refl f)

  module _ {W : Type 0} (env : Environment N W) where
    after_fetch-Outcome :
        (now : Time) (table : Option (Table (ModelRates N.F))) (stale : Option (RatesSnapshot N))
        (s : RateTableStore N) (w : W)
        → ((t : Table (ModelRates N.F)) → table ≡ some t → is_nil t ≡ false)
        → Valid s
        → Good stale
        → Old now stale s
        → Outcome now stale table (env.now w).0 s (after_fetch N env table stale s w).0
    unfolding after_fetch apply_rates
    after_fetch-Outcome now none stale s w full valid good old =
        fall_back-Outcome now (env.now w).0 stale s valid good old
    after_fetch-Outcome now (some table) stale s w full valid good old =
        newly_fetched refl refl refl (applied-Priced (env.now w).0 table s.url s (full table refl))

    -- What a fetch gives.
    abbrev pub fetched : RateTableStore N → W → Option (Table (ModelRates N.F))
    fetched s w = parse_rate_table N (env.get_catalog s.url w).0

    -- The instant after it.
    abbrev pub later : RateTableStore N → W → Time
    later s w = (env.now (env.get_catalog s.url w).1).0

    refresh-Outcome :
        (now : Time) (stale : Option (RatesSnapshot N)) (s : RateTableStore N) (w : W)
        → Valid s
        → Good stale
        → Old now stale s
        → Outcome now stale (fetched s w) (later s w) s (refresh N env stale s w).0
    unfolding refresh
    refresh-Outcome now stale s w valid good old =
        let (document, w') = env.get_catalog s.url w in
        after_fetch-Outcome now (parse_rate_table N document) stale s w'
          (parse_rate_table-some N document) valid good old

    with_snapshot-Outcome :
        (now : Time) (stale : Option (RatesSnapshot N)) (s : RateTableStore N) (w : W)
        → Valid s
        → Good stale
        → (s.resolved ≡ true → young now s.fetched_at ≡ false)
        → Outcome now stale (fetched s w) (later s w) s (with_snapshot N env now stale s w).0
    unfolding with_snapshot from_snapshot apply_rates
    with_snapshot-Outcome now none s w valid good old =
        refresh-Outcome now none s w valid good
          (record { old_snapshot = λ snapshot e. absurd (cc e); old_table = old })
    with_snapshot-Outcome now (some stale) s w valid (with_rates good) old =
        either
          (λ (x : (RateTableStore N × Answer N) × W).
            Outcome now (some stale) (fetched s w) (later s w) s x.0)
          (young now stale.snapshot_fetched_at) _ _
          (λ t.
            still_fresh t (read_back refl refl refl refl)
              (applied-Priced stale.snapshot_fetched_at stale.rates stale.snapshot_source s good))
          (λ f.
            refresh-Outcome now (some stale) s w valid (with_rates good)
              (record { old_snapshot = λ snapshot e. same_age e f; old_table = old }))
      where
        same_age :
            {snapshot : RatesSnapshot N}
            → some stale ≡ some snapshot
            → young now stale.snapshot_fetched_at ≡ false
            → young now snapshot.snapshot_fetched_at ≡ false
        same_age e f = cc (e, f)

    load_snapshot-Good : (s : RateTableStore N) (w : W) → Good (load_snapshot N env s w).0
    unfolding load_snapshot
    load_snapshot-Good s w = elim (Bool-cases (is_empty s.dir)) [
      | inl t ↦ rw t no_snapshot
      | inr f ↦ rw f (usable-Good (env.read_snapshot s.dir w).0)
    ]

    -- In any environment Ensure returns a table with some rates and calls it fresh only if the store
    -- had it, or its snapshot has it, from less than RatesTTL before, or if the fetch gives it, and
    -- then it is marked with the instant after the fetch and the store's URL. The table is called
    -- cached only if it is older, and the fetch fails. Ensure returns an error only if the fetch fails
    -- and there is neither a usable snapshot nor a table in the store, and then leaves the store as it
    -- was. The store must have no empty table as its own, as is so of a new one.
    pub ensure-Outcome :
        (s : RateTableStore N) (w : W)
        → Valid s
        → Outcome
            (env.now w).0
            (load_snapshot N env s (env.now w).1).0
            (fetched s (load_snapshot N env s (env.now w).1).1)
            (later s (load_snapshot N env s (env.now w).1).1)
            s
            (ensure N env s w).0
    unfolding ensure
    ensure-Outcome s w valid =
        let (now, w1) = env.now w in
        let (stale, w2) = load_snapshot N env s w1 in
        either
          (λ (x : (RateTableStore N × Answer N) × W).
            Outcome now stale (fetched s w2) (later s w2) s x.0)
          (s.resolved && young now s.fetched_at) _ _
          (λ t. still_fresh (and_right _ _ t) kept (and_left _ _ t, valid (and_left _ _ t)))
          (λ f.
            with_snapshot-Outcome now stale s w2 valid (load_snapshot-Good s w1)
              (λ t. old_table s.resolved _ f t))
      where
        old_table : (a b : Bool) → a && b ≡ false → a ≡ true → b ≡ false
        old_table a b f t = ground arith
