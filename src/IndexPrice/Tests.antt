-- ===== src/IndexPrice/Tests.antt =====
-- Runs of pkg/math/oracle, with natural numbers as the floats, and a quotient by zero that panics.
use Prim.Native.Nat.{Ordering, compare}
use orynx.Prelude.{
  ℕ, ◌+◌, ◌*◌, ◌/◌, ◌≡◌, ◌≢◌, refl, false, true, [], ◌∷◌, Option, none, some, Text, codes, ok, err,
  arith, ◌==◌, if◌then◌else◌,
}
use orynx.Prelude.Dict.{get, put}
use orynx.Prelude.Sorting.{by_insertion}
use orynx.CurrencyPair.{CurrencyPair, to_string}
use orynx.MarketMap.{Market, MarketMap, ProviderConfig}
use orynx.BigMath.{Floats, middle, calculate_median, power_of_ten, scale_big_float}
use orynx.IndexPrice.{
  IndexPriceAggregator, aggregate_prices, aggregate_markets, calculate_adjusted_price, market_price,
  median_price, calculate_converted_prices, get_provider_price, get_index_price, missing_provider,
}

pub compare_swap : (x y : ℕ) → compare x y ≡ Ordering.gt → compare y x ≡ Ordering.lt
compare_swap x y h = ground arith

pub compare_trans :
    (x y z : ℕ) → compare x y ≢ Ordering.gt → compare y z ≢ Ordering.gt → compare x z ≢ Ordering.gt
compare_trans x y z h k = ground arith

abbrev pub naturals : Floats
naturals = record {
  Float = ℕ;
  cmp = compare;
  add = λ x y. some (x + y);
  mul = λ x y. some (x * y);
  quo = λ x y. if y == 0 then none else some (x / y);
  mul_in_place = λ x y. some (x * y);
  quo_in_place = λ x y. if y == 0 then none else some (x / y);
  new_float_one = 1;
  set_int = λ n. n;
  set_uint64 = λ n. n;
  cmp_swap = compare_swap;
  cmp_trans = compare_trans;
}

abbrev pub pair_of : Text → CurrencyPair
pair_of base = record { base = base; quote = codes "USD" }

abbrev pub config_of : Text → Option CurrencyPair → ProviderConfig
config_of name by = record {
  name = name;
  off_chain_ticker = codes "btc";
  normalize_by_pair = by;
  inverted = false;
  metadata_json = [];
}

abbrev pub btc_market : Market
btc_market = record {
  ticker = record {
    currency_pair = pair_of (codes "BTC");
    decimals = 2;
    min_provider_count = 2;
    enabled = true;
    metadata_json = [];
  };
  provider_configs =
      config_of (codes "a") none
      ∷ config_of (codes "b") (some (pair_of (codes "USDT")))
      ∷ config_of (codes "c") none
      ∷ [];
}

abbrev pub btc_map : MarketMap
btc_map = (codes "BTC/USD", btc_market) ∷ []

abbrev holding : IndexPriceAggregator naturals
holding = record {
  cfg = btc_map;
  index_prices = (codes "USDT/USD", some 2) ∷ [];
  scaled_prices = [];
  provider_prices =
      (codes "a", (codes "btc", some 90) ∷ []) ∷ (codes "b", (codes "btc", some 40) ∷ []) ∷ [];
}

abbrev aggregated : IndexPriceAggregator naturals
aggregated = record holding {
  index_prices = (codes "BTC/USD", some 85) ∷ [];
  scaled_prices = (codes "BTC/USD", some 8500) ∷ [];
}

reported_a : calculate_adjusted_price naturals holding (config_of (codes "a") none) ≡ ok 90
unfolding calculate_adjusted_price get_provider_price get
reported_a = ground arith

converted_b :
    calculate_adjusted_price naturals holding
      (config_of (codes "b") (some (pair_of (codes "USDT"))))
    ≡ ok 80
unfolding calculate_adjusted_price get_provider_price get_index_price get to_string
converted_b = ground arith

missing_c :
    calculate_adjusted_price naturals holding (config_of (codes "c") none) ≡ err missing_provider
unfolding calculate_adjusted_price get_provider_price get
missing_c = ground arith

converted :
    calculate_converted_prices naturals holding btc_market.provider_configs ≡ ok (90 ∷ 80 ∷ [])
unfolding calculate_converted_prices
converted = rw (reported_a, converted_b, missing_c) refl

median_of_two : calculate_median naturals by_insertion (90 ∷ 80 ∷ []) ≡ some (some 85)
unfolding calculate_median middle
median_of_two = refl

btc_price : market_price naturals by_insertion holding btc_market ≡ ok (some (85, 8500))
unfolding market_price median_price scale_big_float power_of_ten
btc_price = rw (converted, median_of_two) refl

btc_aggregated : aggregate_prices naturals by_insertion holding ≡ (ok tt, aggregated)
unfolding aggregate_prices aggregate_markets get put to_string
btc_aggregated = ground (arith, btc_price)
