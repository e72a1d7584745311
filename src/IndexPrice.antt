-- ===== src/IndexPrice.antt =====
-- pkg/math/oracle: the side-car's aggregator of index prices (aggregator.go and utils.go). Each method
-- runs under the aggregator's lock, so it is one step of the state. Logs and metrics are left out.
pub mod Converted
pub mod Aggregated
pub mod Tests
use orynx.Prelude.{
  ℕ, ◌+◌, ◌^◌, ◌≡◌, Bool, true, false, not, List, [], ◌∷◌, Option, none, some, Text, Text-discrete,
  Result, ok, err, ◌>>=◌, ◌>>◌, or_fail, length, ltb, leb, if◌then◌else◌,
}
use orynx.Prelude.Dict.{Dict, get, put}
use orynx.Prelude.Action.{Action}
use orynx.Prelude.Sorting.{StableSort}
use orynx.CurrencyPair.{CurrencyPair, to_string}
use orynx.MarketMap.{Market, MarketMap, ProviderConfig, ticker_string}
use orynx.BigMath.{Floats, calculate_median, scale_big_float}

-- The errors of one price, which the loops skip, and a panic, which they do not.
pub data PriceError : Type 0 where
  missing_provider missing_price nil_price missing_index nil_index panicked : PriceError

-- A panic of the aggregator, which leaves it by its caller.
pub data Panic : Type 0 where
  panic : Panic

-- `len(prices) < int(minProviderCount)`; the `int` of a `uint64` is negative from 2 ^ 63 on.
abbrev pub too_few : ℕ → ℕ → Bool
too_few n min_provider_count =
    if leb (2 ^ 63) min_provider_count then false else ltb n min_provider_count

module _ (f : Floats) where
  open f use {Float, mul, quo, new_float_one}

  -- `types.Prices`; a nil pointer is `none`.
  abbrev pub Prices : Type 0
  Prices = Dict Text (Option Float)

  pub record IndexPriceAggregator : Type 0 where
    pub cfg : MarketMap
    pub index_prices : Prices
    pub scaled_prices : Prices
    pub provider_prices : Dict Text Prices

  -- `NewIndexPriceAggregator`, with a logger.
  abbrev pub new_index_price_aggregator : MarketMap → IndexPriceAggregator
  new_index_price_aggregator cfg = record {
    cfg = cfg;
    index_prices = [];
    scaled_prices = [];
    provider_prices = [];
  }

  unfoldable pub get_provider_price :
      IndexPriceAggregator → ProviderConfig → Result PriceError Float
  get_provider_price m pc = do
    cache ← or_fail (get Text-discrete pc.name m.provider_prices) missing_provider
    found ← or_fail (get Text-discrete pc.off_chain_ticker cache) missing_price
    price ← or_fail found nil_price
    if pc.inverted then or_fail (quo new_float_one price) panicked else ok price

  unfoldable pub get_index_price : IndexPriceAggregator → CurrencyPair → Result PriceError Float
  get_index_price m cp = do
    found ← or_fail (get Text-discrete (to_string cp) m.index_prices) missing_index
    or_fail found nil_index

  unfoldable pub calculate_adjusted_price :
      IndexPriceAggregator → ProviderConfig → Result PriceError Float
  calculate_adjusted_price m pc = do
    price ← get_provider_price m pc
    elim pc.normalize_by_pair [
      | none ↦ ok price
      | some cp ↦ get_index_price m cp >>= λ index. or_fail (mul price index) panicked
    ]

  -- One turn of the loop of `CalculateConvertedPrices`, with what the later turns return.
  abbrev pub add_converted :
      Result PriceError Float → Result Panic (List Float) → Result Panic (List Float)
  add_converted (ok price) rest = rest >>= λ prices. ok (price ∷ prices)
  add_converted (err panicked) rest = err panic
  add_converted (err missing_provider) rest = rest
  add_converted (err missing_price) rest = rest
  add_converted (err nil_price) rest = rest
  add_converted (err missing_index) rest = rest
  add_converted (err nil_index) rest = rest

  -- `CalculateConvertedPrices`
  pub calculate_converted_prices :
      IndexPriceAggregator → List ProviderConfig → Result Panic (List Float)
  calculate_converted_prices m [] = ok []
  calculate_converted_prices m (pc ∷ pcs) =
      add_converted (calculate_adjusted_price m pc) (calculate_converted_prices m pcs)

  module _ (s : StableSort Float) where
    -- The index price and the scaled price of a market. A nil median cannot be copied.
    unfoldable pub median_price : Market → List Float → Result Panic (Float × Float)
    median_price market converted = do
      median ← or_fail (calculate_median f s converted) panic
      price ← or_fail median panic
      scaled ← or_fail (scale_big_float f price market.ticker.decimals) panic
      ok (price, scaled)

    -- The body of the loop of `AggregatePrices`: `none` if the market is skipped.
    unfoldable pub market_price :
        IndexPriceAggregator → Market → Result Panic (Option (Float × Float))
    market_price m market =
        if not market.ticker.enabled
        then ok none
        else (calculate_converted_prices m market.provider_configs >>= λ converted.
            if too_few (length converted) market.ticker.min_provider_count
            then ok none
            else (median_price market converted >>= λ prices. ok (some prices)))

    abbrev pub set_market_price :
        Market → Option (Float × Float) → Prices × Prices → Prices × Prices
    set_market_price market none prices = prices
    set_market_price market (some (price, scaled)) (index_prices, scaled_prices) = (
      put Text-discrete (ticker_string market) (some price) index_prices,
      put Text-discrete (ticker_string market) (some scaled) scaled_prices,
    )

    -- The loop of `AggregatePrices`, which reads the index prices of the round before.
    pub aggregate_markets :
        IndexPriceAggregator → MarketMap → Prices × Prices → Result Panic (Prices × Prices)
    aggregate_markets m [] prices = ok prices
    aggregate_markets m ((ticker, market) ∷ markets) prices = market_price m market >>= λ found.
        aggregate_markets m markets (set_market_price market found prices)

    unfoldable pub aggregate_prices : Action IndexPriceAggregator Panic (Unit {0})
    aggregate_prices m = elim (aggregate_markets m m.cfg ([], [])) [
      | err e ↦ (err e, m)
      | ok (index_prices, scaled_prices) ↦
          (ok tt, record m { index_prices = index_prices; scaled_prices = scaled_prices })
    ]

  unfoldable pub set_index_prices : Prices → IndexPriceAggregator → IndexPriceAggregator
  set_index_prices prices m = record m { index_prices = prices }

  -- `GetIndexPrices`, `GetPrices` and `GetMarketMap`
  abbrev pub get_index_prices : IndexPriceAggregator → Prices
  get_index_prices m = m.index_prices

  abbrev pub get_prices : IndexPriceAggregator → Prices
  get_prices m = m.scaled_prices

  abbrev pub get_market_map : IndexPriceAggregator → MarketMap
  get_market_map m = m.cfg

  unfoldable pub update_market_map : MarketMap → IndexPriceAggregator → IndexPriceAggregator
  update_market_map market_map m = record m { cfg = market_map }

  -- `SetProviderPrices`; nil prices are stored as an empty map.
  unfoldable pub set_provider_prices :
      Text → Option Prices → IndexPriceAggregator → IndexPriceAggregator
  set_provider_prices provider prices m =
      let known : Prices = elim prices [ none ↦ [] | some ps ↦ ps ] in
      record m { provider_prices = put Text-discrete provider known m.provider_prices }

  unfoldable pub reset : IndexPriceAggregator → IndexPriceAggregator
  reset m = record m { provider_prices = [] }
