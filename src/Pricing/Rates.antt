-- ===== src/Pricing/Rates.antt =====
-- Rate tables and the price of usage (pricing.go). A float64 is a value of `Numbers`, a parameter with
-- Go's arithmetic, and so are Go's lower case and the two readings of a number in a text.
use mathlib.Core.Option.{some-injective}
use agentwrap.Prelude.{
  ℤ, pos, String, ◌≡◌, refl, subst, Bool, false, ◌||◌, Option, none, some, or_default, List, [],
  ◌∷◌, get_last?, is_nil, is_empty, str_eq, split_at_char, Table, find, insert, if◌then◌else◌,
}
use agentwrap.Contract.{Usage}
use agentwrap.Validation.Checks.{trim_space}

pub record Numbers : Type 1 where
  pub F : Type 0
  pub zero_float : F
  pub of_int : ℤ → F
  pub add : F → F → F
  pub subtract : F → F → F
  pub multiply : F → F → F
  pub is_nan : F → Bool
  pub is_inf : F → Bool
  pub number_float : String → Option F
  pub json_float : String → Option F
  pub lower : String → String

-- What a JSON document has in the place of a number.
pub data JsonValue (F : Type 0) : Type 0 where
  float : F → JsonValue F
  number : String → JsonValue F
  text : String → JsonValue F
  another : JsonValue F

pub record ModelRates (F : Type 0) : Type 0 where
  pub input_per_token : F
  pub output_per_token : F
  pub cache_read_per_token : F
  pub cache_write_per_token : F

pub data CostSource : Type 0 where
  provider_reported model_priced unpriced : CostSource

pub record PricedUsage (F : Type 0) : Type 0 where
  pub amount : F
  pub currency : String
  pub source : CostSource

abbrev int64_value : Option ℤ → ℤ
int64_value none = pos 0
int64_value (some n) = n

-- What stands behind the last slash, which has code 47.
unfoldable pub after_last_slash : String → String
unfolding split_at_char
after_last_slash s = or_default (get_last? (split_at_char 47 s)) s

module _ (N : Numbers) where
  unfoldable pub normalize_model_name : String → String
  unfolding after_last_slash trim_space
  normalize_model_name model = after_last_slash (N.lower (trim_space model))

  -- RateTable.Lookup
  unfoldable pub lookup_rates : String → Table (ModelRates N.F) → Option (ModelRates N.F)
  unfolding find normalize_model_name
  lookup_rates model table = find (normalize_model_name model) table

  abbrev times : Option ℤ → N.F → N.F
  times tokens rate = N.multiply (N.of_int (int64_value tokens)) rate

  priced : Option (ModelRates N.F) → Usage → PricedUsage N.F
  priced none usage = record {
    amount = N.zero_float;
    currency = "USD";
    source = CostSource.unpriced;
  }
  priced (some rate) usage = record {
    amount =
        N.add
          (N.add
            (N.add (N.add N.zero_float (times usage.input_tokens rate.input_per_token))
              (times usage.cache_read_tokens rate.cache_read_per_token))
            (times usage.cache_write_tokens rate.cache_write_per_token))
          (times usage.output_tokens rate.output_per_token);
    currency = "USD";
    source = CostSource.model_priced;
  }

  unfoldable pub price_usage : Table (ModelRates N.F) → String → Usage → PricedUsage N.F
  unfolding priced lookup_rates
  price_usage table model usage = priced (lookup_rates model table) usage

  saved : Option (ModelRates N.F) → Usage → Option N.F
  saved none usage = none
  saved (some rate) usage =
      some
        (times usage.cache_read_tokens (N.subtract rate.input_per_token rate.cache_read_per_token))

  -- CacheSavings; `none` is 0 and false.
  unfoldable pub cache_savings : Table (ModelRates N.F) → String → Usage → Option N.F
  unfolding saved lookup_rates
  cache_savings table model usage = saved (lookup_rates model table) usage

  finite : Option N.F → Option N.F
  finite none = none
  finite (some x) = if N.is_nan x || N.is_inf x then none else some x

  -- finiteNumber; a key that is missing reads as nil, another value.
  unfoldable pub finite_number : Option (JsonValue N.F) → Option N.F
  unfolding finite
  finite_number (some (float x)) = finite (some x)
  finite_number (some (number s)) = finite (N.number_float s)
  finite_number (some (text s)) = finite (N.json_float s)
  finite_number _ = none

  rates_of : Option N.F → Option N.F → Option N.F → Option N.F → Option (ModelRates N.F)
  rates_of (some input) (some output) read write = some (record {
    input_per_token = input;
    output_per_token = output;
    cache_read_per_token = or_default read input;
    cache_write_per_token = or_default write input;
  })
  rates_of _ _ read write = none

  -- The rates of an entry that has both an input and an output rate.
  unfoldable pub entry_rates : Table (JsonValue N.F) → Option (ModelRates N.F)
  unfolding rates_of finite_number find
  entry_rates entry =
      rates_of (finite_number (find "input_cost_per_token" entry))
        (finite_number (find "output_cost_per_token" entry))
        (finite_number (find "cache_read_input_token_cost" entry))
        (finite_number (find "cache_creation_input_token_cost" entry))

  put_rates : String → Option (ModelRates N.F) → Table (ModelRates N.F) → Table (ModelRates N.F)
  unfolding insert
  put_rates key none table = table
  put_rates key (some rates) table =
      if is_empty key || str_eq key "synthetic" then table else insert key rates table

  -- The loop of ParseRateTable, in the order in which Go ranges over the map.
  unfoldable pub project_entries :
      List (String × Table (JsonValue N.F)) → Table (ModelRates N.F) → Table (ModelRates N.F)
  unfolding put_rates entry_rates normalize_model_name
  project_entries [] table = table
  project_entries ((name, entry) ∷ entries) table =
      project_entries entries (put_rates (normalize_model_name name) (entry_rates entry) table)

  if_priced : Table (ModelRates N.F) → Option (Table (ModelRates N.F))
  if_priced [] = none
  if_priced (r ∷ table) = some (r ∷ table)

  -- ParseRateTable of a document that encoding/json reads, or else fails on; `none` is an error.
  unfoldable pub parse_rate_table :
      Option (List (String × Table (JsonValue N.F))) → Option (Table (ModelRates N.F))
  unfolding if_priced project_entries
  parse_rate_table none = none
  parse_rate_table (some entries) = if_priced (project_entries entries [])

  pub parse_rate_table-some :
      (document : Option (List (String × Table (JsonValue N.F)))) (table : Table (ModelRates N.F))
      → parse_rate_table document ≡ some table
      → is_nil table ≡ false
  unfolding parse_rate_table
  parse_rate_table-some none table e = absurd (cc e)
  parse_rate_table-some (some entries) table e = some_priced (project_entries entries []) e
    where
      some_priced : (t : Table (ModelRates N.F)) → if_priced t ≡ some table → is_nil table ≡ false
      some_priced [] e = absurd (cc e)
      some_priced (r ∷ t) e = subst (λ u. is_nil u ≡ false) (some-injective _ _ e) refl
