-- ===== src/Pricing/Store.antt =====
-- RateTableStore (pricing.go): the layers from which Ensure takes a rate table.
pub mod Ensured
use agentwrap.Prelude.{
  ℕ, ℤ, pos, ◌*◌, ◌^◌, ltb_ℤ, Time, is_zero_time, Duration, sub_time, String, Bool, true, false,
  ◌&&◌, ◌||◌, not, Option, none, some, List, [], ◌∷◌, length, is_nil, is_empty, Table,
  if◌then◌else◌,
}
use agentwrap.Pricing.Rates.{Numbers, JsonValue, ModelRates, parse_rate_table}

pub record RatesInfo : Type 0 where
  pub status : String
  pub info_source : String
  pub info_fetched_at : Time
  pub known_models : ℕ

abbrev pub rates_ttl : Duration
rates_ttl = pos (24 * 3600 * 10 ^ 9)

abbrev pub rates_status_fresh : String
rates_status_fresh = "fresh"

abbrev pub rates_status_cached : String
rates_status_cached = "cached"

-- now.Sub(fetchedAt) < RatesTTL
abbrev pub young : Time → Time → Bool
young now fetched_at = ltb_ℤ (sub_time now fetched_at) rates_ttl

module _ (N : Numbers) where
  pub record RatesSnapshot : Type 0 where
    pub version_is_1 : Bool
    pub snapshot_fetched_at : Time
    pub snapshot_source : String
    pub rates : Table (ModelRates N.F)

  pub record RateTableStore : Type 0 where
    pub dir : String
    pub url : String
    pub table : Table (ModelRates N.F)
    pub fetched_at : Time
    pub source : String
    pub resolved : Bool

  -- What the store asks of the world: its clock, the snapshot's file as encoding/json reads it, the
  -- catalog as fetched and read by encoding/json, where `none` is an error, and the file's writing.
  pub record Environment (W : Type 0) : Type 0 where
    pub now : W → Time × W
    pub read_snapshot : String → W → Option RatesSnapshot × W
    pub get_catalog : String → W → Option (List (String × Table (JsonValue N.F))) × W
    pub put_snapshot : String → RatesSnapshot → W → W

  -- NewRateTableStore, of a directory and a URL.
  unfoldable pub new_rate_store : String → String → RateTableStore
  new_rate_store dir url = record {
    dir = dir;
    url = url;
    table = [];
    fetched_at = 0;
    source = "";
    resolved = false;
  }

  unfoldable pub apply_rates :
      Time → Table (ModelRates N.F) → String → RateTableStore → RateTableStore
  apply_rates fetched_at table source s = record s {
    table = table;
    fetched_at = fetched_at;
    source = source;
    resolved = not (is_nil table);
  }

  abbrev pub info_of : String → RateTableStore → RatesInfo
  info_of status s = record {
    status = status;
    info_source = s.source;
    info_fetched_at = s.fetched_at;
    known_models = length s.table;
  }

  abbrev pub unavailable : RateTableStore → RatesInfo
  unavailable s = record {
    status = "unavailable";
    info_source = s.url;
    info_fetched_at = 0;
    known_models = 0;
  }

  -- RateTableStore.Status
  unfoldable pub status_of : RateTableStore → RatesInfo
  status_of s = if s.resolved then info_of rates_status_cached s else unavailable s

  -- A table, or none with an error, and where it is from.
  abbrev pub Answer : Type 0
  Answer = Option (Table (ModelRates N.F)) × RatesInfo

  abbrev answer : String → RateTableStore → RateTableStore × Answer
  answer status s = (s, (some s.table, info_of status s))

  -- The tests of loadSnapshot.
  usable : Option RatesSnapshot → Option RatesSnapshot
  usable none = none
  usable (some snapshot) =
      if not snapshot.version_is_1
        || is_nil snapshot.rates
        || is_zero_time snapshot.snapshot_fetched_at
      then none
      else some snapshot

  from_snapshot : String → RatesSnapshot → RateTableStore → RateTableStore × Answer
  unfolding apply_rates
  from_snapshot status stale s =
      answer status (apply_rates stale.snapshot_fetched_at stale.rates stale.snapshot_source s)

  -- What Ensure falls back to.
  fall_back : Option RatesSnapshot → RateTableStore → RateTableStore × Answer
  unfolding from_snapshot
  fall_back (some stale) s = from_snapshot rates_status_cached stale s
  fall_back none s = if s.resolved then answer rates_status_cached s else (s, (none, unavailable s))

  module _ {W : Type 0} (env : Environment W) where
    pub load_snapshot : RateTableStore → W → Option RatesSnapshot × W
    unfolding usable
    load_snapshot s w =
        let (found, w') = env.read_snapshot s.dir w in
        if is_empty s.dir then (none, w) else (usable found, w')

    write_snapshot : Time → Table (ModelRates N.F) → RateTableStore → W → W
    write_snapshot fetched_at table s w =
        if is_empty s.dir || is_nil table
        then w
        else env.put_snapshot s.dir
            (record {
              version_is_1 = true;
              snapshot_fetched_at = fetched_at;
              snapshot_source = s.url;
              rates = table;
            })
            w

    after_fetch :
        Option (Table (ModelRates N.F))
        → Option RatesSnapshot
        → RateTableStore
        → W
        → (RateTableStore × Answer) × W
    unfolding fall_back apply_rates write_snapshot
    after_fetch none stale s w = (fall_back stale s, w)
    after_fetch (some table) stale s w =
        let (fetched_at, w') = env.now w in
        (
          answer rates_status_fresh (apply_rates fetched_at table s.url s),
          write_snapshot fetched_at table s w',
        )

    -- fetch, and what follows it.
    refresh : Option RatesSnapshot → RateTableStore → W → (RateTableStore × Answer) × W
    unfolding after_fetch parse_rate_table
    refresh stale s w =
        let (document, w') = env.get_catalog s.url w in
        after_fetch (parse_rate_table N document) stale s w'

    with_snapshot : Time → Option RatesSnapshot → RateTableStore → W → (RateTableStore × Answer) × W
    unfolding refresh from_snapshot
    with_snapshot now none s w = refresh none s w
    with_snapshot now (some stale) s w =
        if young now stale.snapshot_fetched_at
        then (from_snapshot rates_status_fresh stale s, w)
        else refresh (some stale) s w

    -- RateTableStore.Ensure
    unfoldable pub ensure : RateTableStore → W → (RateTableStore × Answer) × W
    unfolding load_snapshot with_snapshot
    ensure s w =
        let (now, w1) = env.now w in
        let (stale, w2) = load_snapshot s w1 in
        if s.resolved && young now s.fetched_at
        then (answer rates_status_fresh s, w1)
        else with_snapshot now stale s w2
