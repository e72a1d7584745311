-- ===== src/SideCar/Lifecycle/Started.antt =====
-- What `New` and `Start` (oracle/oracle.go, oracle/lifecycle.go and oracle/init.go) make of a configuration.
use orynx.Prelude.{
  ◌≡◌, ◌≢◌, refl, sym, ap, ◌∙◌, Bool, true, List, [], ◌∷◌, none, some, Text, Text-discrete, ok,
  arith, All,
}
use orynx.Prelude.Dict.{Dict, get, IsMap}
use orynx.Config.{
  ProviderConfig, OracleConfig, validate_provider, validate_providers, validate_oracle,
}
use orynx.MarketMap.{MarketMap, validate_market_map}
use orynx.SideCar.{PriceAggregator, PriceProvider}
use orynx.SideCar.Laws.{AggregatorLaws}
use orynx.SideCar.Fetched.{AreNamed}
use orynx.SideCar.Updated.{IsConsistent, update_providers-HasTickers}
use orynx.SideCar.Spawned.{
  IsStarted, update_providers-get, update_providers-IsMap, update_providers-AreNamed,
  update_providers-IsStarted,
}
use orynx.SideCar.Lifecycle.{
  Factory, Factories, Oracle, start, new, blank, launch, apply_option, apply_options, OracleOption,
  with_market_map, with_price_api_factory, with_price_ws_factory, with_market_mapper_factory,
  price_provider_type,
}
use orynx.SideCar.Lifecycle.Inited.{IsServed, IsInited, init_each_lem}

module _ {Float : Type 0} (a : PriceAggregator Float) (l : AggregatorLaws a)
    (json_object : Text → Bool) where
  -- The side-car after its start: it is running, consistent, has the price providers of its
  -- configuration under their names, and has started those that have tickers.
  pub record IsReady (cfg : OracleConfig) (o : Oracle a json_object) : Type 0 where
    pub consistent : IsConsistent a l json_object o.impl
    pub is_map : IsMap Text-discrete o.impl.price_providers
    pub named : AreNamed a l o.impl.price_providers
    pub made :
        All
          (λ (e : Text × ProviderConfig).
            e.1.config_type ≡ price_provider_type
            → get Text-discrete e.1.name o.impl.price_providers ≢ none)
          cfg.providers
    pub started : All (IsStarted a l o.impl.spawned) o.impl.price_providers
    pub runs : (o.running ≡ true) × (o.live ≡ true)

  -- What is found by name is still found after the update of the providers.
  made_kept :
      (cfgs : Dict Text ProviderConfig) (ps ps' : Dict Text (PriceProvider a))
      → ((name : Text) → get Text-discrete name ps ≢ none → get Text-discrete name ps' ≢ none)
      → All
          (λ (e : Text × ProviderConfig).
            e.1.config_type ≡ price_provider_type → get Text-discrete e.1.name ps ≢ none)
          cfgs
      → All
          (λ (e : Text × ProviderConfig).
            e.1.config_type ≡ price_provider_type → get Text-discrete e.1.name ps' ≢ none)
          cfgs
  made_kept [] ps ps' keep h = tt
  made_kept ((key, cfg) ∷ cfgs) ps ps' keep h =
      (λ t. keep cfg.name (h.0 t), made_kept cfgs ps ps' keep h.1)

  launch-IsReady :
      (cfg : OracleConfig) (o o' : Oracle a json_object)
      → validate_market_map json_object o.impl.market_map ≡ ok tt
      → l.config o.impl.aggregator ≡ o.impl.market_map
      → o.running ≡ true
      → IsInited a l json_object cfg.providers o o'
      → IsReady cfg (launch a json_object o')
  launch-IsReady cfg o o' v shared r i =
      let impl = o'.impl in
      let ps = impl.price_providers in
      record {
        consistent = record {
          valid = rw i.map_kept v;
          shared = ap l.config i.aggregator_kept ∙ shared ∙ sym i.map_kept;
          tickers = update_providers-HasTickers a l json_object impl.market_map ps impl.spawned;
        };
        is_map = update_providers-IsMap a l impl.market_map ps impl.spawned i.is_map;
        named = update_providers-AreNamed a l impl.market_map ps impl.spawned i.named;
        made =
            made_kept cfg.providers ps _
              (λ name. (update_providers-get a l name impl.market_map ps impl.spawned).1) i.found;
        started = update_providers-IsStarted a l impl.market_map ps impl.spawned i.idle;
        runs = (i.running_kept ∙ r, refl);
      }

  config_providers :
      (ps : Dict Text ProviderConfig)
      → validate_providers ps ≡ ok tt
      → All (λ (e : Text × ProviderConfig). validate_provider e.1 ≡ ok tt) ps
  config_providers [] v = tt
  config_providers ((key, p) ∷ ps) v = (ground arith, config_providers ps (ground arith))

  oracle_providers :
      (cfg : OracleConfig) → validate_oracle cfg ≡ ok tt → validate_providers cfg.providers ≡ ok tt
  unfolding validate_oracle
  oracle_providers cfg v = ground arith

  -- The options that the side-car's program gives, with factories that are set.
  abbrev pub program_options :
      MarketMap → Factory → Factory → Factory → List (OracleOption a json_object)
  program_options mm api ws mapper =
      with_market_map mm
      ∷ with_price_api_factory (some api)
      ∷ with_price_ws_factory (some ws)
      ∷ with_market_mapper_factory (some mapper)
      ∷ []

  abbrev pub factories_of : Factory → Factory → Factory → Factories
  factories_of api ws mapper = record {
    price_api = some api;
    price_ws = some ws;
    market_mapper = some mapper;
  }

  -- If the configuration and the market map are valid, the aggregator goes by this market map, and the
  -- factories make what the configuration asks for, then `New` and `Start` succeed without a panic, and
  -- the side-car is ready.
  pub start-IsReady :
      (cfg : OracleConfig) (state : a.State) (mm : MarketMap) (api ws mapper : Factory)
      → validate_oracle cfg ≡ ok tt
      → validate_market_map json_object mm ≡ ok tt
      → l.config state ≡ mm
      → All (IsServed (factories_of api ws mapper)) cfg.providers
      → (o o' : Oracle a json_object) × (new a json_object cfg
            (some state)
            (program_options mm api ws mapper)
          ≡ ok o)
        × (start a json_object o ≡ (ok tt, o'))
        × IsReady cfg o'
  unfolding new start apply_options apply_option
  start-IsReady cfg state mm api ws mapper v w shared served =
      let b = blank a json_object cfg state in
      let impl = b.impl in
      let o : Oracle a json_object = record b {
        impl = record impl { market_map = mm };
        factories = factories_of api ws mapper;
      } in
      let (o', e, i) =
        init_each_lem a l json_object cfg.providers (record o { running = true })
          (config_providers cfg.providers (oracle_providers cfg v)) served
          (record {
            is_map = tt;
            named = tt;
            idle = tt;
            map_kept = refl;
            aggregator_kept = refl;
            running_kept = refl;
            kept = λ name h. h;
            found = tt;
          }) in
      (
        o,
        launch a json_object o',
        ground (arith, v, w),
        ground (arith, e),
        launch-IsReady cfg (record o { running = true }) o' w shared refl i,
      )
