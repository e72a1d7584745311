-- ===== src/SideCar/Tests.antt =====
-- Runs of the side-car with two providers and natural numbers as the floats.
use orynx.Prelude.{
  ℕ, ◌≡◌, ◌≢◌, ◌⊎◌, inl, refl, Bool, false, true, List, [], ◌∷◌, Option, none, some, Text,
  Text-discrete, codes, ok, err, All, arith,
}
use orynx.Prelude.Dict.{Dict, get, put}
use orynx.Prelude.Int.{pos}
use orynx.Prelude.Sorting.{by_insertion}
use orynx.MarketMap.Tests.{both, both-IsMap, both_valid, braced}
use orynx.Config.{
  WebSocketConfig, OracleConfig, validate_oracle, validate_provider, validate_web_socket,
  validate_enabled_web_socket, validate_endpoint, validate_authentication, validate_metrics,
  not_positive, negative, below_one,
}
use orynx.Provider.{ResolvedResult, code_ok}
use orynx.MarketMap.{validate_market_map}
use orynx.IndexPrice.{IndexPriceAggregator, Panic, aggregate_prices}
use orynx.IndexPrice.Aggregated.{HasPrices, HasNoPrices}
use orynx.IndexPrice.Tests.{naturals, btc_map}
use orynx.SideCar.{
  ProviderTicker, PriceAggregator, PriceProvider, Clock, filter_prices, fetch_all_prices,
  market_map_tick, provider_tickers_from_market_map, map_tickers,
}
use orynx.SideCar.Served.{Reach-HasPrices}
use orynx.SideCar.Lifecycle.{
  Oracle, Factory, Event, provider_routine, remove_routine, tick, done, exits, blank, new, start,
  price_provider_type, no_api, no_web_socket,
}
use orynx.SideCar.Lifecycle.Started.{IsReady, program_options, start-IsReady}
use orynx.SideCar.Lifecycle.Stopped.{left_after}
use orynx.SideCar.Laws.{index_price_aggregator, index_price_laws}
use orynx.SideCar.EndToEnd.{SideCar, IsGathered, IsKept}
use orynx.SideCar.Fresh.{IsFresh, HasFresh, AreSet, filter_prices_lem}
use orynx.SideCar.Updated.{IsConsistent, here, next, fetch, new_map, Reach-IsConsistent}

abbrev aggregator : PriceAggregator ℕ
aggregator = index_price_aggregator naturals by_insertion

abbrev btc : ProviderTicker
btc = record { off_chain_ticker = codes "btc"; json = [] }

abbrev eth : ProviderTicker
eth = record { off_chain_ticker = codes "eth"; json = [] }

-- A fresh price and one that is too old at the time 100, if prices live for 30.
abbrev held : Dict ProviderTicker (ResolvedResult (Option ℕ))
held =
    (btc, record { value = some 90; timestamp = 80; response_code = code_ok })
    ∷ (eth, record { value = some 7; timestamp = 60; response_code = code_ok })
    ∷ []

abbrev provider_of : Text → Option Bool → PriceProvider aggregator
provider_of name running = record {
  name = name;
  api_cfg = no_api;
  ws_cfg = no_web_socket;
  ids = btc ∷ [];
  provider_data = held;
  main_ctx = running;
  fetch_ctx = running;
}

abbrev clock : Clock aggregator
clock = record { at_price = λ name ticker. 100; at_sync = 101 }

only_fresh :
    filter_prices aggregator (λ ticker. 100) 30 held [] ≡ some ((codes "btc", some 90) ∷ [])
unfolding filter_prices put
only_fresh = refl

-- The fresh price is not nil.
held_set : AreSet aggregator (λ ticker. 100) 30 held
held_set = (λ f n. absurd (ground arith), (λ f. absurd (ground arith), tt))

filter_prices_lem_example :
    (prices : Dict Text (Option ℕ)) × (filter_prices aggregator (λ ticker. 100) 30 held []
      ≡ some prices)
    × ((x : Text) (found : Option ℕ)
        → get Text-discrete x prices ≡ some found
        → (price : ℕ) × (found ≡ some price) × HasFresh aggregator (λ ticker. 100) 30 x price held)
    × All
        (λ (e : ProviderTicker × ResolvedResult (Option ℕ)).
          IsFresh aggregator (λ ticker. 100) 30 e
          → get Text-discrete e.0.off_chain_ticker prices ≢ none)
        held
filter_prices_lem_example = filter_prices_lem aggregator (λ ticker. 100) 30 held held_set

abbrev running : SideCar naturals by_insertion
running = record {
  price_providers =
      (codes "a", provider_of (codes "a") (some true))
      ∷ (codes "b", provider_of (codes "b") none)
      ∷ [];
  aggregator = record {
    cfg = btc_map;
    index_prices = [];
    scaled_prices = [];
    provider_prices = (codes "b", (codes "btc", some 5) ∷ []) ∷ [];
  };
  last_price_sync = none;
  max_price_age = 30;
  market_map = btc_map;
  last_updated = 0;
  main_ctx_set = true;
  spawned = [];
}

-- A side-car that has started with no market, and its provider without tickers.
abbrev idle : SideCar naturals by_insertion
idle = record running {
  price_providers = (codes "a", record (provider_of (codes "a") none) { ids = [] }) ∷ [];
  aggregator = record { cfg = []; index_prices = []; scaled_prices = []; provider_prices = [] };
  market_map = [];
}

idle-IsConsistent :
    IsConsistent aggregator (index_price_laws naturals by_insertion) (λ bz. true) idle
unfolding validate_market_map provider_tickers_from_market_map map_tickers
idle-IsConsistent = record { valid = refl; shared = refl; tickers = (refl, tt) }

Reach-IsConsistent_example :
    IsConsistent aggregator
      (index_price_laws naturals by_insertion)
      (λ bz. true)
      (fetch_all_prices aggregator clock (market_map_tick aggregator (λ bz. true) btc_map 7 idle))
Reach-IsConsistent_example =
    Reach-IsConsistent aggregator (index_price_laws naturals by_insertion) (λ bz. true) {E = ℕ}
      (next (next here (new_map idle btc_map 7))
        (fetch (market_map_tick aggregator (λ bz. true) btc_map 7 idle) clock))
      idle-IsConsistent

-- A configuration with one price provider, which is a websocket one.
abbrev web_socket : WebSocketConfig
web_socket = record no_web_socket {
  enabled = true;
  max_buffer_size = pos 10;
  reconnection_timeout = pos 1;
  endpoints =
      record { url = codes "u"; authentication = record { api_key = []; api_key_header = [] } }
      ∷ [];
  name = codes "okx";
  handshake_timeout = pos 1;
  read_timeout = pos 1;
  write_timeout = pos 1;
  max_subscriptions_per_batch = pos 1;
}

abbrev cfg : OracleConfig
cfg = record {
  update_interval = pos 1;
  max_price_age = pos 30;
  providers =
      (
        codes "okx",
        record {
          name = codes "okx";
          api = no_api;
          web_socket = web_socket;
          config_type = price_provider_type;
        },
      )
      ∷ [];
  metrics = record { prometheus_server_address = []; enabled = false };
  host = codes "h";
  port = codes "p";
}

cfg_valid : validate_oracle cfg ≡ ok tt
unfolding validate_oracle validate_provider validate_web_socket validate_enabled_web_socket
    validate_endpoint validate_authentication validate_metrics not_positive negative below_one
cfg_valid = ground arith

abbrev make_all : Factory
make_all c = some true

-- An aggregator that goes by two markets, one normalized by the other.
abbrev new_aggregator : IndexPriceAggregator naturals
new_aggregator = record {
  cfg = both true;
  index_prices = [];
  scaled_prices = [];
  provider_prices = [];
}

start-IsReady_example :
    (o o' : Oracle aggregator braced) × (new aggregator braced cfg (some new_aggregator) (
        program_options aggregator
          (index_price_laws naturals by_insertion)
          braced
          (both true)
          make_all
          make_all
          make_all)
      ≡ ok o)
    × (start aggregator braced o ≡ (ok tt, o'))
    × IsReady aggregator (index_price_laws naturals by_insertion) braced cfg o'
start-IsReady_example =
    start-IsReady aggregator (index_price_laws naturals by_insertion) braced cfg new_aggregator
      (both true) make_all make_all make_all cfg_valid both_valid refl
      (inl (refl, λ h. (make_all, refl, refl), λ h. (make_all, refl, refl)), tt)

-- A side-car that runs, with a provider that it has started.
abbrev started : Oracle aggregator (λ bz. true)
started = record (blank aggregator (λ bz. true) cfg running.aggregator) {
  impl = record running { spawned = codes "a" ∷ [] };
  running = true;
  live = true;
}

abbrev ending : List (Event aggregator (λ bz. true))
ending = tick clock ∷ done ∷ tick clock ∷ exits (provider_routine (codes "a")) ∷ []

-- So `Start` returns.
ending_left : left_after aggregator (λ bz. true) ending (provider_routine (codes "a") ∷ []) ≡ []
unfolding remove_routine
ending_left = ground arith

-- A side-car that serves two markets, with a provider that runs and holds a price for them.
abbrev serving : SideCar naturals by_insertion
serving = record running {
  price_providers =
      (
        codes "okx",
        record (provider_of (codes "okx") (some true)) {
          ids = provider_tickers_from_market_map (codes "okx") (both true);
        },
      )
      ∷ [];
  aggregator = new_aggregator;
  market_map = both true;
}

Reach-HasPrices_example :
    let n = fetch_all_prices aggregator clock serving in
    let n' = fetch_all_prices aggregator clock n in
    (m : IndexPriceAggregator naturals) × IsGathered naturals by_insertion clock n m
    × ((aggregate_prices naturals by_insertion m ≡ (ok tt, n'.aggregator))
          × (n'.last_price_sync ≡ some 101)
          × ((t : Text)
              → HasPrices naturals by_insertion m n'.aggregator t
                ⊎ HasNoPrices naturals by_insertion m n'.aggregator t)
        ⊎ ((x : Panic) × (aggregate_prices naturals by_insertion m ≡ (err x, n'.aggregator)))
          × (n'.last_price_sync ≡ n.last_price_sync)
          × IsKept naturals by_insertion n.aggregator n'.aggregator)
unfolding get
Reach-HasPrices_example =
    Reach-HasPrices naturals by_insertion braced {E = ℕ} (next here (fetch serving clock)) clock
      (record { valid = both_valid; shared = refl; tickers = (refl, tt) })
      (record { is_map = (refl, tt); named = (refl, tt); markets = both-IsMap true }) (tt, tt)
