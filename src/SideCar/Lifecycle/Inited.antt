-- ===== src/SideCar/Lifecycle/Inited.antt =====
-- What `Init` (oracle/init.go) makes of the configured providers.
use orynx.Prelude.{
  ◌≡◌, ◌≢◌, ◌⊎◌, refl, inl, inr, ◌∙◌, Bool, true, List, [], ◌∷◌, Option, none, some, Text,
  Text-discrete, ok, arith, All, Bool-cases,
}
use orynx.Prelude.Dict.{Dict, get, put, get-put, IsMap, put-IsMap}
use orynx.Config.{
  ApiConfig, WebSocketConfig, ProviderConfig, validate_provider, validate_api, validate_web_socket,
}
use orynx.Provider.{new_provider}
use orynx.SideCar.{ProviderTicker, PriceAggregator, PriceProvider, provider_tickers_from_market_map}
use orynx.SideCar.Laws.{AggregatorLaws}
use orynx.SideCar.Fetched.{AreNamed}
use orynx.SideCar.Updated.{All-put}
use orynx.SideCar.Lifecycle.{
  Factory, Factories, Oracle, make_provider, create_price_provider, create_market_map_provider,
  init_provider, init_each, no_api, no_web_socket, price_provider_type, market_map_provider_type,
}

-- The factory is set, and makes what the configuration asks for.
abbrev pub Makes : Option Factory → ProviderConfig → Type 0
Makes factory cfg = (make : Factory) × (factory ≡ some make) × (make cfg ≡ some true)

-- The provider's type is known, and the factories make what it needs.
abbrev pub IsServed : Factories → Text × ProviderConfig → Type 0
IsServed fs e =
    (e.1.config_type ≡ price_provider_type)
      × (e.1.api.enabled ≡ true → Makes fs.price_api e.1)
      × (e.1.web_socket.enabled ≡ true → Makes fs.price_ws e.1)
    ⊎ (e.1.config_type ≡ market_map_provider_type) × Makes fs.market_mapper e.1

module _ {Float : Type 0} (a : PriceAggregator Float) (l : AggregatorLaws a)
    (json_object : Text → Bool) where
  -- A provider as it is made: named and configured, and not started.
  pub record IsMade (name : Text) (tickers : List ProviderTicker) (p : PriceProvider a)
      : Type 0 where
    pub named : p.name ≡ name
    pub ids : p.ids ≡ tickers
    pub idle : p.main_ctx ≡ none

  no_web_socket_valid : validate_web_socket no_web_socket ≡ ok tt
  unfolding validate_web_socket
  no_web_socket_valid = refl

  no_api_valid : validate_api no_api ≡ ok tt
  unfolding validate_api
  no_api_valid = refl

  abbrev fresh : Text → ApiConfig → WebSocketConfig → List ProviderTicker → PriceProvider a
  fresh name api ws tickers = record {
    name = name;
    api_cfg = api;
    ws_cfg = ws;
    ids = tickers;
    provider_data = [];
    main_ctx = none;
    fetch_ctx = none;
  }

  fresh-IsMade :
      (name : Text) (api : ApiConfig) (ws : WebSocketConfig) (tickers : List ProviderTicker)
      → IsMade name tickers (fresh name api ws tickers)
  fresh-IsMade name api ws tickers = record { named = refl; ids = refl; idle = refl }

  make_provider-IsMade :
      (fs : Factories) (cfg : ProviderConfig) (tickers : List ProviderTicker)
      → validate_provider cfg ≡ ok tt
      → (cfg.api.enabled ≡ true → Makes fs.price_api cfg)
      → (cfg.web_socket.enabled ≡ true → Makes fs.price_ws cfg)
      → (p : PriceProvider a) × (make_provider a json_object fs cfg tickers ≡ ok p)
        × IsMade cfg.name tickers p
  unfolding make_provider new_provider validate_provider
  make_provider-IsMade fs cfg tickers v api ws = elim (Bool-cases cfg.api.enabled) [
    | inl on ↦
        let (make, set, made) = api on in
        (
          fresh cfg.name cfg.api no_web_socket tickers,
          ground (arith, no_web_socket_valid),
          fresh-IsMade cfg.name cfg.api no_web_socket tickers,
        )
    | inr off ↦
        let (make, set, made) = ws (ground arith) in
        (
          fresh cfg.name no_api cfg.web_socket tickers,
          ground (arith, no_api_valid),
          fresh-IsMade cfg.name no_api cfg.web_socket tickers,
        )
  ]

  -- What a part of `Init` has done to the side-car.
  pub record IsInited (cfgs : Dict Text ProviderConfig) (o o' : Oracle a json_object) : Type 0 where
    pub is_map : IsMap Text-discrete o'.impl.price_providers
    pub named : AreNamed a l o'.impl.price_providers
    pub idle : All (λ (e : Text × PriceProvider a). e.1.main_ctx ≡ none) o'.impl.price_providers
    pub map_kept : o'.impl.market_map ≡ o.impl.market_map
    pub aggregator_kept : o'.impl.aggregator ≡ o.impl.aggregator
    pub running_kept : o'.running ≡ o.running
    pub kept :
        (name : Text)
        → get Text-discrete name o.impl.price_providers ≢ none
        → get Text-discrete name o'.impl.price_providers ≢ none
    pub found :
        All
          (λ (e : Text × ProviderConfig).
            e.1.config_type ≡ price_provider_type
            → get Text-discrete e.1.name o'.impl.price_providers ≢ none)
          cfgs

  -- One provider of `Init`.
  init_provider_lem :
      (key : Text) (cfg : ProviderConfig) (o : Oracle a json_object)
      → validate_provider cfg ≡ ok tt
      → IsServed o.factories (key, cfg)
      → IsInited [] o o
      → (o' : Oracle a json_object) × (init_provider a json_object cfg o ≡ (ok tt, o'))
        × (o'.factories ≡ o.factories)
        × IsInited ((key, cfg) ∷ []) o o'
  unfolding create_price_provider create_market_map_provider
  init_provider_lem key cfg o v (inl (price, api, ws)) i =
      let (p, e, made) =
        make_provider-IsMade o.factories cfg
          (provider_tickers_from_market_map cfg.name o.impl.market_map) v api ws in
      let ps = put Text-discrete p.name p o.impl.price_providers in
      let impl = o.impl in
      (
        record o { impl = record impl { price_providers = ps } },
        ground (arith, e),
        refl,
        record {
          is_map = put-IsMap Text-discrete p.name p impl.price_providers i.is_map;
          named =
              All-put a l json_object (λ e. e.1.name ≡ e.0) p.name p impl.price_providers refl
                i.named;
          idle =
              All-put a l json_object (λ e. e.1.main_ctx ≡ none) p.name p impl.price_providers
                made.idle i.idle;
          map_kept = refl;
          aggregator_kept = refl;
          running_kept = refl;
          kept = λ name h. ground (arith, get-put Text-discrete name p.name p impl.price_providers);
          found = (
            λ t.
                ground
                  (arith, made.named, get-put Text-discrete cfg.name p.name p impl.price_providers),
            tt,
          );
        },
      )
  init_provider_lem key cfg o v (inr (mapper, (make, set, made))) i = (
    record o { mm_provider = some cfg },
    ground arith,
    refl,
    record {
      is_map = i.is_map;
      named = i.named;
      idle = i.idle;
      map_kept = refl;
      aggregator_kept = refl;
      running_kept = refl;
      kept = λ name h. h;
      found = (λ t. absurd (ground arith), tt);
    },
  )

  pub init_each_lem :
      (cfgs : Dict Text ProviderConfig) (o : Oracle a json_object)
      → All (λ (e : Text × ProviderConfig). validate_provider e.1 ≡ ok tt) cfgs
      → All (IsServed o.factories) cfgs
      → IsInited [] o o
      → (o' : Oracle a json_object) × (init_each a json_object cfgs o ≡ (ok tt, o'))
        × IsInited cfgs o o'
  unfolding init_each
  init_each_lem [] o v served i = (o, refl, i)
  init_each_lem ((key, cfg) ∷ cfgs) o v served i =
      let (o1, e, same, w) = init_provider_lem key cfg o v.0 served.0 i in
      let (o', f, w') = init_each_lem cfgs o1 v.1 (rw same served.1) (record {
        is_map = w.is_map;
        named = w.named;
        idle = w.idle;
        map_kept = refl;
        aggregator_kept = refl;
        running_kept = refl;
        kept = λ name h. h;
        found = tt;
      }) in
      (
        o',
        ground (arith, e, f),
        record {
          is_map = w'.is_map;
          named = w'.named;
          idle = w'.idle;
          map_kept = w'.map_kept ∙ w.map_kept;
          aggregator_kept = w'.aggregator_kept ∙ w.aggregator_kept;
          running_kept = w'.running_kept ∙ w.running_kept;
          kept = λ name h. w'.kept name (w.kept name h);
          found = (λ t. w'.kept cfg.name (w.found.0 t), w'.found);
        },
      )
