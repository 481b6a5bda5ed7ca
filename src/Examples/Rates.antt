-- ===== src/Examples/Rates.antt =====
-- Rates with integers for floats, where the catalog cannot be fetched and an old snapshot is there.
use agentwrap.Prelude.{
  ℕ, pos, pos_part, ◌+◌, ◌-◌, ◌*◌, ◌^◌, ◌≡◌, refl, sub_time, true, false, none, some, [], ◌∷◌, find,
}
use agentwrap.Contract.{zero_usage}
use agentwrap.Pricing.Rates.{Numbers, ModelRates, price_usage}
use agentwrap.Pricing.Store.{
  RatesSnapshot, Environment, new_rate_store, ensure, load_snapshot, RateTableStore,
  rates_status_cached,
}
use agentwrap.Pricing.Store.Ensured.{Outcome, fetched, later, ensure-Outcome}

abbrev whole : Numbers
whole = record {
  F = ℕ;
  zero_float = 0;
  of_int = λ n. pos_part n;
  add = λ a b. a + b;
  subtract = λ a b. a - b;
  multiply = λ a b. a * b;
  is_nan = λ a. false;
  is_inf = λ a. false;
  number_float = λ s. none;
  json_float = λ s. none;
  lower = λ s. s;
}

abbrev some_rates : ModelRates ℕ
some_rates = record {
  input_per_token = 3;
  output_per_token = 15;
  cache_read_per_token = 1;
  cache_write_per_token = 4;
}

abbrev yesterday : RatesSnapshot whole
yesterday = record {
  version_is_1 = true;
  snapshot_fetched_at = 5;
  snapshot_source = "catalog";
  rates = ("sonnet", some_rates) ∷ [];
}

abbrev offline : Environment whole ℕ
offline = record {
  now = λ w. (200000 * 10 ^ 9, w);
  read_snapshot = λ dir w. (some yesterday, w);
  get_catalog = λ url w. (none, w);
  put_snapshot = λ dir s w. w;
}

-- Four tokens in, one out, and nothing twice.
priced_test :
    (price_usage whole yesterday.rates " anthropic/sonnet" (record zero_usage {
      input_tokens = some (pos 4);
      output_tokens = some (pos 1);
      reasoning_tokens = some (pos 1);
    })).amount
    ≡ 27
unfolding price_usage find
priced_test = refl

cached_test :
    (ensure whole offline (new_rate_store whole "cache" "url") 0).0.1.1.status ≡ rates_status_cached
unfolding ensure new_rate_store sub_time
cached_test = refl

abbrev unread : RateTableStore whole
unfolding new_rate_store
unread = new_rate_store whole "cache" "url"

ensure-Outcome_example :
    Outcome whole
      (200000 * 10 ^ 9)
      (load_snapshot whole offline unread 0).0
      (fetched whole offline unread (load_snapshot whole offline unread 0).1)
      (later whole offline unread (load_snapshot whole offline unread 0).1)
      unread
      (ensure whole offline unread 0).0
unfolding new_rate_store
ensure-Outcome_example = ensure-Outcome whole offline unread 0 (λ t. absurd (cc t))
