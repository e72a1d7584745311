-- ===== src/SideCar/Lifecycle.antt =====
-- oracle/lifecycle.go, oracle/init.go and oracle/options.go, `New` of oracle/oracle.go, and the options of
-- providers/base/options.go that they use. A panic is the error `panicked`. Loggers, metrics and the
-- path of the market map file are left out.
pub mod Inited
pub mod Started
pub mod Stopped
use orynx.Prelude.{
  ℕ, ◌≡◌, Bool, true, false, not, List, [], ◌∷◌, ◌++◌, map, Option, none, some, Text, Text-discrete,
  codes, Result, ok, err, ◌>>=◌, ◌>>◌, fail_if, or_fail, wrap_err, is_ok, ite, if◌then◌else◌,
}
use orynx.Prelude.Dict.{Dict, put}
use orynx.Prelude.Int.{pos, pos_part}
use orynx.Prelude.Action.{Action}
use orynx.Config.{
  ApiConfig, WebSocketConfig, ProviderConfig, OracleConfig, ConfigError, validate_api,
  validate_web_socket, validate_oracle,
}
use orynx.CurrencyPair.{is_empty}
use orynx.Provider.{ProviderError, new_provider, stop}
use orynx.MarketMap.{MarketMap, is_member, validate_market_map}
use orynx.SideCar.{
  ProviderTicker, PriceAggregator, PriceProvider, OracleImpl, Clock,
  provider_tickers_from_market_map, update_providers, fetch_all_prices,
}

-- `types.ConfigType` of oracle/types, and of service/clients/marketmap/types.
abbrev pub price_provider_type : Text
price_provider_type = codes "price_provider"

abbrev pub market_map_provider_type : Text
market_map_provider_type = codes "market_map_provider"

-- The configurations that are not set.
abbrev pub no_api : ApiConfig
no_api = record {
  enabled = false;
  timeout = pos 0;
  interval = pos 0;
  reconnect_timeout = pos 0;
  max_queries = pos 0;
  atomic = false;
  endpoints = [];
  batch_size = pos 0;
  name = [];
  max_block_height_age = pos 0;
}

abbrev pub no_web_socket : WebSocketConfig
no_web_socket = record {
  enabled = false;
  max_buffer_size = pos 0;
  reconnection_timeout = pos 0;
  post_connection_timeout = pos 0;
  endpoints = [];
  name = [];
  read_buffer_size = pos 0;
  write_buffer_size = pos 0;
  handshake_timeout = pos 0;
  enable_compression = false;
  read_timeout = pos 0;
  write_timeout = pos 0;
  ping_interval = pos 0;
  write_interval = pos 0;
  max_read_error_count = pos 0;
  max_subscriptions_per_connection = pos 0;
  max_subscriptions_per_batch = pos 0;
}

pub data LifeError : Type 0 where
  nil_aggregator unknown_type no_factory factory_failed no_enabled_handler panicked : LifeError
  bad_config : ConfigError → LifeError
  provider_failed : ProviderError → LifeError

-- A factory of query handlers or of market map providers: `none` if it returns an error, `some false` if
-- it returns nil.
abbrev pub Factory : Type 0
Factory = ProviderConfig → Option Bool

pub record Factories : Type 0 where
  pub price_api : Option Factory
  pub price_ws : Option Factory
  pub market_mapper : Option Factory

-- `createAPIQueryHandler` and `createWebSocketQueryHandler`, and the option that sets the handler; the
-- same for a market map provider, whose name is read.
abbrev pub make_handler : Option Factory → ProviderConfig → Result LifeError (Unit {0})
make_handler factory cfg = do
  make ← or_fail factory no_factory
  made ← or_fail (make cfg) factory_failed
  fail_if (not made) panicked

-- A goroutine of the side-car: a provider's, the market map provider's, or the one that listens for market
-- map updates.
pub data Routine : Type 0 where
  provider_routine : Text → Routine
  map_provider_routine listener_routine : Routine

abbrev pub is_routine : Routine → Routine → Bool
is_routine (provider_routine x) (provider_routine y) = ite (Text-discrete x y) true false
is_routine map_provider_routine map_provider_routine = true
is_routine listener_routine listener_routine = true
is_routine _ _ = false

-- `wg.Done` of a goroutine.
unfoldable pub remove_routine : Routine → List Routine → List Routine
remove_routine x [] = []
remove_routine x (r ∷ left) = if is_routine x r then left else r ∷ remove_routine x left

module _ {Float : Type 0} (a : PriceAggregator Float) (json_object : Text → Bool) where
  -- The side-car with what its start needs. The market map provider is known by its configuration.
  -- `live` tells whether the main context is set and not cancelled.
  pub record Oracle : Type 0 where
    pub cfg : OracleConfig
    pub impl : OracleImpl a
    pub factories : Factories
    pub mm_provider : Option ProviderConfig
    pub running : Bool
    pub live : Bool

  pub data OracleOption : Type 0 where
    with_market_map : MarketMap → OracleOption
    with_last_updated : ℕ → OracleOption
    with_price_api_factory with_price_ws_factory with_market_mapper_factory :
        Option Factory → OracleOption
    with_price_providers : List (PriceProvider a) → OracleOption

  pub add_providers :
      List (PriceProvider a) → Dict Text (PriceProvider a) → Dict Text (PriceProvider a)
  add_providers [] held = held
  add_providers (p ∷ ps) held = add_providers ps (put Text-discrete p.name p held)

  abbrev pub set_factories : Factories → Oracle → Oracle
  set_factories fs o = record o { factories = fs }

  unfoldable pub apply_option : OracleOption → Oracle → Result LifeError Oracle
  apply_option (with_market_map mm) o = do
    fail_if (not (is_ok (validate_market_map json_object mm))) panicked
    ok (let impl = o.impl in record o { impl = record impl { market_map = mm } })
  apply_option (with_last_updated height) o =
      ok (let impl = o.impl in record o { impl = record impl { last_updated = height } })
  apply_option (with_price_api_factory factory) o = do
    make ← or_fail factory panicked
    ok (let fs = o.factories in set_factories (record fs { price_api = some make }) o)
  apply_option (with_price_ws_factory factory) o = do
    make ← or_fail factory panicked
    ok (let fs = o.factories in set_factories (record fs { price_ws = some make }) o)
  apply_option (with_market_mapper_factory factory) o = do
    make ← or_fail factory panicked
    ok (let fs = o.factories in set_factories (record fs { market_mapper = some make }) o)
  apply_option (with_price_providers ps) o = ok (
      let impl = o.impl in
      record o { impl = record impl { price_providers = add_providers ps impl.price_providers } })

  unfoldable pub apply_options : List OracleOption → Oracle → Result LifeError Oracle
  apply_options [] o = ok o
  apply_options (option ∷ options) o = apply_option option o >>= apply_options options

  -- The side-car that `New` makes, before its options.
  abbrev pub blank : OracleConfig → a.State → Oracle
  blank cfg aggregator = record {
    cfg = cfg;
    impl = record {
      price_providers = [];
      aggregator = aggregator;
      last_price_sync = none;
      max_price_age = pos_part cfg.max_price_age;
      market_map = [];
      last_updated = 0;
      main_ctx_set = false;
      spawned = [];
    };
    factories = record { price_api = none; price_ws = none; market_mapper = none };
    mm_provider = none;
    running = false;
    live = false;
  }

  -- `New`
  unfoldable pub new : OracleConfig → Option a.State → List OracleOption → Result LifeError Oracle
  new cfg aggregator options = do
    wrap_err bad_config (validate_oracle cfg)
    state ← or_fail aggregator nil_aggregator
    apply_options options (blank cfg state)

  -- `NewPriceProvider` with the options that `createPriceProvider` gives it.
  abbrev pub api_provider :
      ProviderConfig → List ProviderTicker → Result LifeError (PriceProvider a)
  api_provider cfg tickers = do
    fail_if (is_empty cfg.name) panicked
    fail_if (not (is_ok (validate_api cfg.api))) panicked
    wrap_err provider_failed (new_provider true false cfg.name cfg.api no_web_socket tickers)

  abbrev pub ws_provider : ProviderConfig → List ProviderTicker → Result LifeError (PriceProvider a)
  ws_provider cfg tickers = do
    fail_if (is_empty cfg.name) panicked
    fail_if (not (is_ok (validate_web_socket cfg.web_socket))) panicked
    wrap_err provider_failed (new_provider false true cfg.name no_api cfg.web_socket tickers)

  -- The provider that `createPriceProvider` makes.
  unfoldable pub make_provider :
      Factories → ProviderConfig → List ProviderTicker → Result LifeError (PriceProvider a)
  make_provider fs cfg tickers =
      if cfg.api.enabled
      then make_handler fs.price_api cfg >> api_provider cfg tickers
      else (if cfg.web_socket.enabled
          then make_handler fs.price_ws cfg >> ws_provider cfg tickers
          else err no_enabled_handler)

  -- `createPriceProvider`
  unfoldable pub create_price_provider : ProviderConfig → Action Oracle LifeError (Unit {0})
  create_price_provider cfg o =
      let impl = o.impl in
      elim (make_provider o.factories cfg
        (provider_tickers_from_market_map cfg.name impl.market_map)) [
          | err e ↦ (err e, o)
          | ok p ↦ (
            ok tt,
            record o {
              impl = record impl {
                price_providers = put Text-discrete p.name p impl.price_providers;
              };
            },
          )
        ]

  -- `createMarketMapProvider`
  unfoldable pub create_market_map_provider : ProviderConfig → Action Oracle LifeError (Unit {0})
  create_market_map_provider cfg o = elim (make_handler o.factories.market_mapper cfg) [
    | err e ↦ (err e, o)
    | ok u ↦ (ok tt, record o { mm_provider = some cfg })
  ]

  abbrev pub init_provider : ProviderConfig → Action Oracle LifeError (Unit {0})
  init_provider cfg o =
      ite (Text-discrete cfg.config_type price_provider_type) (create_price_provider cfg o) (
        ite (Text-discrete cfg.config_type market_map_provider_type)
          (create_market_map_provider cfg o) (err unknown_type, o))

  -- The loop of `Init`.
  pub init_each : Dict Text ProviderConfig → Action Oracle LifeError (Unit {0})
  init_each [] o = (ok tt, o)
  init_each ((key, cfg) ∷ cfgs) o =
      let (r, o') = init_provider cfg o in elim r [ err e ↦ (err e, o') | ok u ↦ init_each cfgs o' ]

  -- The state of the side-car once `Start` has its context and has started the providers.
  abbrev pub launch : Oracle → Oracle
  launch o =
      let impl = o.impl in
      let (ps, spawned) = update_providers a impl.market_map impl.price_providers impl.spawned in
      record o {
        live = true;
        impl = record impl { price_providers = ps; spawned = spawned; main_ctx_set = true };
      }

  -- `Start` up to its loop. If it returns earlier, the side-car is not running.
  unfoldable pub start : Action Oracle LifeError (Unit {0})
  start o =
      let (r, o') = init_each o.cfg.providers (record o { running = true }) in
      elim r [ err e ↦ (err e, record o' { running = false }) | ok u ↦ (ok tt, launch o') ]

  -- The providers when the main context is cancelled: the contexts of those that were started in
  -- goroutines are its children.
  pub cancel_spawned : List Text → Dict Text (PriceProvider a) → Dict Text (PriceProvider a)
  cancel_spawned spawned [] = []
  cancel_spawned spawned ((name, p) ∷ ps) =
      (name, if is_member name spawned then stop p else p) ∷ cancel_spawned spawned ps

  -- `Stop` up to its wait for the goroutines.
  unfoldable pub cancel_oracle : Oracle → Oracle
  cancel_oracle o =
      let impl = o.impl in
      if impl.main_ctx_set
      then record o {
        live = false;
        impl = record impl { price_providers = cancel_spawned impl.spawned impl.price_providers };
      }
      else o

  -- The goroutines that the wait group counts when the loop of `Start` begins.
  abbrev pub routines : Oracle → List Routine
  routines o = map provider_routine o.impl.spawned ++ (elim o.mm_provider [
    | none ↦ []
    | some cfg ↦ map_provider_routine ∷ listener_routine ∷ []
  ])

  -- What the loop of `Start` and the wait of `Stop` see: a tick, that the context is done, or that a
  -- goroutine has ended, which it may never do.
  pub data Event : Type 0 where
    tick : Clock a → Event
    done : Event
    exits : Routine → Event

  -- `wg.Wait` and the return from `Start`, with the goroutines that have not ended.
  unfoldable pub wait : List Event → List Routine → Oracle → Oracle
  wait events [] o = record o { running = false }
  wait [] (r ∷ left) o = o
  wait (tick clock ∷ events) (r ∷ left) o = wait events (r ∷ left) o
  wait (done ∷ events) (r ∷ left) o = wait events (r ∷ left) o
  wait (exits x ∷ events) (r ∷ left) o = wait events (remove_routine x (r ∷ left)) o

  unfoldable pub loop : List Event → List Routine → Oracle → Oracle
  loop [] left o = o
  loop (tick clock ∷ events) left o =
      loop events left (record o { impl = fetch_all_prices a clock o.impl })
  loop (exits x ∷ events) left o = loop events (remove_routine x left) o
  loop (done ∷ events) left o = wait events left (cancel_oracle o)

  -- The loop of `Start` on the events that come, while no market map update starts further goroutines.
  abbrev pub run : List Event → Oracle → Oracle
  run events o = loop events (routines o) o
