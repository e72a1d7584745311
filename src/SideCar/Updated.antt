-- ===== src/SideCar/Updated.antt =====
-- What an update of the market map (oracle/update.go, oracle/market_mapper.go) does to the side-car, and
-- what holds in all its runs.
use orynx.Prelude.{
  true, ℕ, ◌≡◌, refl, sym, ap, ◌∙◌, inl, inr, Bool, false, List, [], ◌∷◌, Option, none, some, Text,
  Text-discrete, ok, err, arith, All, Result-cases,
}
use orynx.Prelude.Dict.{Dict, get, put}
use orynx.MarketMap.{MarketMap, MarketError, get_valid_subset, validate_market_map}
use orynx.MarketMap.Subset.{get_valid_subset_fixed}
use orynx.MarketMap.Equal.{equal_market_map}
use orynx.Provider.{GetResponse, stop, update_ids, recv, start, turn, restart, response_ch_capacity}
use orynx.SideCar.{
  ProviderTicker, ProviderTicker-discrete, PriceAggregator, PriceProvider, OracleImpl, Clock,
  provider_tickers_from_market_map, update_provider_state, update_providers, update_market_map,
  is_market_map_valid_updated, market_map_tick, fetch_all_prices,
}
use orynx.SideCar.Laws.{AggregatorLaws}
use orynx.SideCar.Fetched.{fetch_all_prices-config}

module _ {Float : Type 0} (a : PriceAggregator Float) (l : AggregatorLaws a)
    (json_object : Text → Bool) where
  -- The provider has the tickers that the market map gives to its name.
  abbrev pub HasTickers : MarketMap → Text × PriceProvider a → Type 0
  HasTickers mm e = e.1.ids ≡ provider_tickers_from_market_map e.0 mm

  -- The market map is valid, the aggregator goes by it, and every provider has its tickers.
  pub record IsConsistent (o : OracleImpl a) : Type 0 where
    pub valid : validate_market_map json_object o.market_map ≡ ok tt
    pub shared : l.config o.aggregator ≡ o.market_map
    pub tickers : All (HasTickers o.market_map) o.price_providers

  update_provider_state-ids :
      (tickers : List ProviderTicker) (p : PriceProvider a)
      → (update_provider_state a tickers p).0.ids ≡ tickers
  unfolding update_provider_state stop update_ids
  update_provider_state-ids tickers p = ground arith

  pub update_providers-HasTickers :
      (mm : MarketMap) (ps : Dict Text (PriceProvider a)) (spawned : List Text)
      → All (HasTickers mm) (update_providers a mm ps spawned).0
  unfolding update_providers
  update_providers-HasTickers mm [] spawned = tt
  update_providers-HasTickers mm ((name, p) ∷ ps) spawned = (
    update_provider_state-ids (provider_tickers_from_market_map name mm) p,
    update_providers-HasTickers mm ps _,
  )

  get_valid_subset_valid :
      (mm : MarketMap)
      → (get_valid_subset json_object mm).1 ≡ ok tt
      → validate_market_map json_object (get_valid_subset json_object mm).0 ≡ ok tt
  unfolding get_valid_subset
  get_valid_subset_valid mm h = h

  -- The state with a new market map.
  abbrev pub with_map : MarketMap → OracleImpl a → OracleImpl a
  with_map subset o =
      let (providers, spawned) = update_providers a subset o.price_providers o.spawned in
      record o {
        price_providers = providers;
        spawned = spawned;
        market_map = subset;
        aggregator = a.update_market_map subset o.aggregator;
      }

  with_map-IsConsistent :
      (subset : MarketMap) (o : OracleImpl a)
      → validate_market_map json_object subset ≡ ok tt
      → IsConsistent (with_map subset o)
  with_map-IsConsistent subset o v = record {
    valid = v;
    shared = l.config-update subset o.aggregator;
    tickers = update_providers-HasTickers subset o.price_providers o.spawned;
  }

  pub update_ok :
      (mm : MarketMap) (o : OracleImpl a)
      → (get_valid_subset json_object mm).1 ≡ ok tt
      → update_market_map a json_object mm o
        ≡ (ok tt, with_map (get_valid_subset json_object mm).0 o)
  unfolding update_market_map
  update_ok mm o v = rw (v, update_market_map) refl

  update_err :
      (mm : MarketMap) (o : OracleImpl a) {e : MarketError}
      → (get_valid_subset json_object mm).1 ≡ err e
      → update_market_map a json_object mm o ≡ (err e, o)
  unfolding update_market_map
  update_err mm o {e} v = rw (v, update_market_map) refl

  -- If the valid subset of a market map passes its check, `UpdateMarketMap` succeeds and leaves the
  -- side-car consistent with that subset; otherwise it returns the error, and changes nothing.
  pub update_market_map-IsConsistent :
      (mm : MarketMap) (o : OracleImpl a)
      → let (subset, verdict) = get_valid_subset json_object mm in
        let (r, o') = update_market_map a json_object mm o in
        (verdict ≡ ok tt → (r ≡ ok tt) × IsConsistent o' × (o'.market_map ≡ subset))
        × ((e : MarketError) → verdict ≡ err e → (r ≡ err e) × (o' ≡ o))
  update_market_map-IsConsistent mm o = (
    λ v.
        rw (update_ok mm o v) (refl, with_map-IsConsistent _ o (get_valid_subset_valid mm v), refl),
    λ e v. rw (update_err mm o v) (refl, refl),
  )

  -- What `IsMarketMapValidUpdated` hands on is a market map that passes the check, and differs from the
  -- present one.
  pub is_market_map_valid_updated_sound :
      (mm subset : MarketMap) (o : OracleImpl a)
      → is_market_map_valid_updated a json_object mm o ≡ ok (some subset)
      → (validate_market_map json_object subset ≡ ok tt)
        × (subset ≡ (get_valid_subset json_object mm).0)
        × (equal_market_map o.market_map mm ≡ false)
        × (equal_market_map o.market_map subset ≡ false)
  unfolding is_market_map_valid_updated
  is_market_map_valid_updated_sound mm subset o e =
      elim (Result-cases (get_valid_subset json_object mm).1) [
        | inl (u, p) ↦
            let same : subset ≡ (get_valid_subset json_object mm).0 = ground arith in
            (rw same (get_valid_subset_valid mm p), ground arith, ground arith, ground arith)
        | inr (x, p) ↦ absurd (ground arith)
      ]

  -- A tick of the market map provider keeps the side-car consistent.
  pub market_map_tick-IsConsistent :
      (mm : MarketMap) (height : ℕ) (o : OracleImpl a)
      → IsConsistent o
      → IsConsistent (market_map_tick a json_object mm height o)
  unfolding market_map_tick
  market_map_tick-IsConsistent mm height o c =
      elim (Result-cases (is_market_map_valid_updated a json_object mm o)) [
        | inr (e, p) ↦ rw (p, market_map_tick) c
        | inl (none, p) ↦ rw (p, market_map_tick) c
        | inl (some subset, p) ↦
            let (v, same, _, _) = is_market_map_valid_updated_sound mm subset o p in
            let fixed = get_valid_subset_fixed json_object subset v in
            let step = update_ok subset o (ap (λ r. r.1) fixed) in
            let now =
              with_map-IsConsistent (get_valid_subset json_object subset).0 o (rw fixed v) in
            rw (p, market_map_tick)
              (rw step (record { valid = now.valid; shared = now.shared; tickers = now.tickers }))
      ]

  pub All-put :
      (P : Text × PriceProvider a → Type 0) (name : Text) (p : PriceProvider a)
      (ps : Dict Text (PriceProvider a))
      → P (name, p)
      → All P ps
      → All P (put Text-discrete name p ps)
  unfolding put
  All-put P name p [] h k = (h, tt)
  All-put P name p ((key, q) ∷ ps) h k = ground (arith, All-put P name p ps h k.1)

  respond_ids :
      {E : Type 0} (r : GetResponse ProviderTicker (Option Float) E) (p : PriceProvider a)
      → (recv ProviderTicker-discrete r p).ids ≡ p.ids
  unfolding recv
  respond_ids r p = refl

  turn_ids : (p : PriceProvider a) → (turn p).1.ids ≡ p.ids
  unfolding turn
  turn_ids p = elim (Result-cases (response_ch_capacity p)) [
    | inl (n, q) ↦ ground arith
    | inr (x, q) ↦ ground arith
  ]

  restart_ids : (p : PriceProvider a) → (restart p).ids ≡ p.ids
  unfolding restart
  restart_ids p = ground (arith, turn_ids p)

  stop_ids : (p : PriceProvider a) → (stop p).ids ≡ p.ids
  unfolding stop
  stop_ids p = ground arith

  -- The side-car after a provider has changed.
  abbrev pub with_provider : Text → PriceProvider a → OracleImpl a → OracleImpl a
  with_provider name p o = record o { price_providers = put Text-discrete name p o.price_providers }

  -- What happens to a side-car: a round of fetching, a tick of the market map provider, and of a provider a
  -- response that it receives, its start, the next turn of its loop, and its end.
  pub data Step (E : Type 0) : OracleImpl a → OracleImpl a → Type 1 where
    fetch : (o : OracleImpl a) (clock : Clock a) → Step E o (fetch_all_prices a clock o)
    new_map :
        (o : OracleImpl a) (mm : MarketMap) (height : ℕ)
        → Step E o (market_map_tick a json_object mm height o)
    respond :
        (o : OracleImpl a) (name : Text) (p : PriceProvider a)
        (r : GetResponse ProviderTicker (Option Float) E)
        → get Text-discrete name o.price_providers ≡ some p
        → Step E o (with_provider name (recv ProviderTicker-discrete r p) o)
    started :
        (o : OracleImpl a) (name : Text) (p : PriceProvider a)
        → get Text-discrete name o.price_providers ≡ some p
        → Step E o (with_provider name (start p).1 o)
    restarted :
        (o : OracleImpl a) (name : Text) (p : PriceProvider a)
        → get Text-discrete name o.price_providers ≡ some p
        → Step E o (with_provider name (restart p) o)
    stopped :
        (o : OracleImpl a) (name : Text) (p : PriceProvider a)
        → get Text-discrete name o.price_providers ≡ some p
        → Step E o (with_provider name (stop p) o)

  pub data Reach (E : Type 0) (o : OracleImpl a) : OracleImpl a → Type 1 where
    here : Reach E o o
    next : {m n : OracleImpl a} → Reach E o m → Step E m n → Reach E o n

  HasTickers-of :
      (mm : MarketMap) (name : Text) (p : PriceProvider a) (ps : Dict Text (PriceProvider a))
      → All (HasTickers mm) ps
      → get Text-discrete name ps ≡ some p
      → HasTickers mm (name, p)
  unfolding get
  HasTickers-of mm name p [] h e = absurd (ground arith)
  HasTickers-of mm name p ((key, q) ∷ ps) h e = ground (arith, HasTickers-of mm name p ps h.1)

  with_provider-IsConsistent :
      (name : Text) (p p' : PriceProvider a) (o : OracleImpl a)
      → get Text-discrete name o.price_providers ≡ some p
      → p'.ids ≡ p.ids
      → IsConsistent o
      → IsConsistent (with_provider name p' o)
  with_provider-IsConsistent name p p' o e same c = record {
    valid = c.valid;
    shared = c.shared;
    tickers =
        All-put (HasTickers o.market_map) name p' o.price_providers
          (same ∙ HasTickers-of o.market_map name p o.price_providers c.tickers e) c.tickers;
  }

  Step-IsConsistent :
      {E : Type 0} {m n : OracleImpl a} → Step E m n → IsConsistent m → IsConsistent n
  Step-IsConsistent (fetch o clock) c =
      let (same, mm, ps) = fetch_all_prices-config a l clock o in
      record {
        valid = rw mm c.valid;
        shared = same ∙ c.shared ∙ sym mm;
        tickers = rw (mm, ps) c.tickers;
      }
  Step-IsConsistent (new_map o mm height) c = market_map_tick-IsConsistent mm height o c
  Step-IsConsistent (respond o name p r e) c =
      with_provider-IsConsistent name p _ o e (respond_ids r p) c
  Step-IsConsistent (started o name p e) c =
      with_provider-IsConsistent name p _ o e (turn_ids (record p { main_ctx = some true })) c
  Step-IsConsistent (restarted o name p e) c =
      with_provider-IsConsistent name p _ o e (restart_ids p) c
  Step-IsConsistent (stopped o name p e) c = with_provider-IsConsistent name p _ o e (stop_ids p) c

  -- In every run from a consistent state, the side-car stays consistent: its market map is valid, its
  -- aggregator goes by it, and every provider is asked for the tickers that the map gives to its name.
  pub Reach-IsConsistent :
      {E : Type 0} {o n : OracleImpl a} → Reach E o n → IsConsistent o → IsConsistent n
  Reach-IsConsistent here c = c
  Reach-IsConsistent (next r s) c = Step-IsConsistent s (Reach-IsConsistent r c)
