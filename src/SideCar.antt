-- ===== src/SideCar.antt =====
-- oracle/: the side-car (oracle.go, update.go, market_mapper.go, interfaces.go), and oracle/types/market.go
-- and oracle.go. Logs, metrics and the wait group are left out.
pub mod Laws
pub mod Fresh
pub mod Tickers
pub mod Fetched
pub mod Updated
pub mod EndToEnd
pub mod Spawned
pub mod Runs
pub mod Served
pub mod Lifecycle
pub mod Tests
use orynx.Prelude.{
  ℕ, ◌+◌, ◌≡◌, Bool, true, false, not, ◌&&◌, ◌||◌, List, [], ◌∷◌, ◌++◌, Option, none, some, Text,
  Text-discrete, Result, ok, err, ite, ltb, if◌then◌else◌, ℕ_discrete,
}
use orynx.Prelude.Dict.{Dict, get, put}
use orynx.Prelude.Action.{Action}
use orynx.MarketMap.{Market, MarketMap, MarketError, ProviderConfig, is_member, get_valid_subset}
use orynx.MarketMap.Equal.{equal_market_map}
use orynx.Provider.{Provider, ResolvedResult, is_running, stop, update_ids, get_data}
use orynx.Config.{is_nil}

-- `DefaultProviderTicker`
pub record ProviderTicker : Type 0 where
  pub off_chain_ticker : Text
  pub json : Text

pub ProviderTicker-discrete : Discrete ProviderTicker
ProviderTicker-discrete = hlevel ℕ_discrete

-- One turn of the loop over the provider configurations of a market, in
-- `ProviderTickersFromMarketMap`: the tickers found, and the off-chain tickers seen.
pub add_ticker :
    Text → ProviderConfig → List ProviderTicker × List Text → List ProviderTicker × List Text
add_ticker name pc (tickers, seen) =
    if ite (Text-discrete pc.name name) false true || is_member pc.off_chain_ticker seen
    then (tickers, seen)
    else (
      tickers ++ record { off_chain_ticker = pc.off_chain_ticker; json = pc.metadata_json } ∷ [],
      pc.off_chain_ticker ∷ seen,
    )

pub market_tickers :
    Text → List ProviderConfig → List ProviderTicker × List Text → List ProviderTicker × List Text
market_tickers name [] found = found
market_tickers name (pc ∷ pcs) found = market_tickers name pcs (add_ticker name pc found)

-- The loop over the markets.
pub map_tickers :
    Text → MarketMap → List ProviderTicker × List Text → List ProviderTicker × List Text
map_tickers name [] found = found
map_tickers name ((key, market) ∷ markets) found =
    map_tickers name markets (
      if not market.ticker.enabled
      then found
      else market_tickers name market.provider_configs found)

-- `ProviderTickersFromMarketMap`, whose error is always nil.
unfoldable pub provider_tickers_from_market_map : Text → MarketMap → List ProviderTicker
provider_tickers_from_market_map name mm = (map_tickers name mm ([], [])).0

-- The interface `PriceAggregator` that the side-car uses, with the state behind it. Only
-- `AggregatePrices` may panic, with an error of type `Panic`.
pub record PriceAggregator (Float : Type 0) : Type 1 where
  pub State : Type 0
  pub Panic : Type 0
  pub set_provider_prices : Text → Option (Dict Text (Option Float)) → State → State
  pub update_market_map : MarketMap → State → State
  pub aggregate_prices : Action State Panic (Unit {0})
  pub get_prices : State → Dict Text (Option Float)
  pub reset : State → State

module _ {Float : Type 0} (a : PriceAggregator Float) where
  -- A provider of prices. A nil price is `none`.
  abbrev pub PriceProvider : Type 0
  PriceProvider = Provider ProviderTicker (Option Float)

  -- `OracleImpl`. `main_ctx_set` tells whether the main context has been set, and `spawned` lists the
  -- providers that a goroutine has been started for, the latest first.
  pub record OracleImpl : Type 0 where
    pub price_providers : Dict Text PriceProvider
    pub aggregator : a.State
    pub last_price_sync : Option ℕ
    pub max_price_age : ℕ
    pub market_map : MarketMap
    pub last_updated : ℕ
    pub main_ctx_set : Bool
    pub spawned : List Text

  -- The clock, as read at each price of a provider and at the end of a round.
  pub record Clock : Type 0 where
    pub at_price : Text → ProviderTicker → ℕ
    pub at_sync : ℕ

  -- The price is older than the maximum. A duration is taken not to saturate.
  abbrev pub is_stale : ℕ → ℕ → ℕ → Bool
  is_stale max_age now timestamp = ltb (timestamp + max_age) now

  -- The loop of `fetchPrices`; `none` is the panic of logging a nil price.
  pub filter_prices :
      (ProviderTicker → ℕ)
      → ℕ
      → Dict ProviderTicker (ResolvedResult (Option Float))
      → Dict Text (Option Float)
      → Option (Dict Text (Option Float))
  filter_prices now max_age [] prices = some prices
  filter_prices now max_age ((ticker, result) ∷ results) prices =
      if is_stale max_age (now ticker) result.timestamp
      then filter_prices now max_age results prices
      else (elim result.value [
        | none ↦ none
        | some price ↦
            filter_prices now max_age results
              (put Text-discrete ticker.off_chain_ticker (some price) prices)
      ])

  -- `fetchPrices`, whose panics are recovered.
  unfoldable pub fetch_prices : Clock → ℕ → PriceProvider → a.State → a.State
  fetch_prices clock max_age provider s =
      if not (is_running provider)
      then s
      else (elim (filter_prices (clock.at_price provider.name) max_age (get_data provider) []) [
        | none ↦ s
        | some prices ↦ a.set_provider_prices provider.name (some prices) s
      ])

  -- The loop of `fetchAllPrices`.
  pub fetch_each : Clock → ℕ → Dict Text PriceProvider → a.State → a.State
  fetch_each clock max_age [] s = s
  fetch_each clock max_age ((name, provider) ∷ providers) s =
      fetch_each clock max_age providers (fetch_prices clock max_age provider s)

  -- `fetchAllPrices`. A panic of the aggregator is recovered, and the time of the last sync not set.
  unfoldable pub fetch_all_prices : Clock → OracleImpl → OracleImpl
  fetch_all_prices clock o =
      let fetched = fetch_each clock o.max_price_age o.price_providers (a.reset o.aggregator) in
      let (r, s) = a.aggregate_prices fetched in
      elim r [
        | err e ↦ record o { aggregator = s }
        | ok u ↦ record o { aggregator = s; last_price_sync = some clock.at_sync }
      ]

  -- What `UpdateProviderState` does to the provider, and whether it starts a goroutine for it.
  unfoldable pub update_provider_state : List ProviderTicker → PriceProvider → PriceProvider × Bool
  update_provider_state tickers provider =
      let updated = update_ids tickers provider in
      if is_nil tickers then (stop updated, false) else (updated, not (is_running updated))

  abbrev pub add_spawned : Text → Bool → List Text → List Text
  add_spawned name true names = name ∷ names
  add_spawned name false names = names

  -- The loop of `UpdateMarketMap` over the providers.
  pub update_providers :
      MarketMap → Dict Text PriceProvider → List Text → Dict Text PriceProvider × List Text
  update_providers mm [] spawned = ([], spawned)
  update_providers mm ((name, provider) ∷ providers) spawned =
      let (updated, starts) =
        update_provider_state (provider_tickers_from_market_map name mm) provider in
      let (rest, spawned') = update_providers mm providers (add_spawned name starts spawned) in
      ((name, updated) ∷ rest, spawned')

  module _ (json_object : Text → Bool) where
    -- `UpdateMarketMap`
    unfoldable pub update_market_map : MarketMap → Action OracleImpl MarketError (Unit {0})
    update_market_map mm o =
        let (subset, verdict) = get_valid_subset json_object mm in
        elim verdict [
          | err e ↦ (err e, o)
          | ok u ↦
              let (providers, spawned) = update_providers subset o.price_providers o.spawned in
              (
                ok tt,
                record o {
                  price_providers = providers;
                  spawned = spawned;
                  market_map = subset;
                  aggregator = a.update_market_map subset o.aggregator;
                },
              )
        ]

    -- `IsMarketMapValidUpdated`, for a response that is not nil: the new market map, if there is one.
    unfoldable pub is_market_map_valid_updated :
        MarketMap → OracleImpl → Result MarketError (Option MarketMap)
    is_market_map_valid_updated mm o =
        if equal_market_map o.market_map mm
        then ok none
        else (let (subset, verdict) = get_valid_subset json_object mm in
            elim verdict [
              | err e ↦ err e
              | ok u ↦ if equal_market_map o.market_map subset then ok none else ok (some subset)
            ])

    -- The height is kept if the update has succeeded.
    abbrev pub set_height : ℕ → Result MarketError (Unit {0}) × OracleImpl → OracleImpl
    set_height height (err e, o) = o
    set_height height (ok u, o) = record o { last_updated = height }

    -- One tick of `listenForMarketMapUpdates` with a market map and its height; errors are logged.
    unfoldable pub market_map_tick : MarketMap → ℕ → OracleImpl → OracleImpl
    market_map_tick mm height o = elim (is_market_map_valid_updated mm o) [
      | err e ↦ o
      | ok none ↦ o
      | ok (some subset) ↦ set_height height (update_market_map subset o)
    ]

  -- `GetPrices`, `GetMarketMap` and `GetLastSyncTime`
  abbrev pub get_prices : OracleImpl → Dict Text (Option Float)
  get_prices o = a.get_prices o.aggregator

  abbrev pub get_market_map : OracleImpl → MarketMap
  get_market_map o = o.market_map

  abbrev pub get_last_sync_time : OracleImpl → Option ℕ
  get_last_sync_time o = o.last_price_sync
