-- ===== src/SideCar/Runs.antt =====
-- What the side-car serves in every run (oracle/update.go, oracle/market_mapper.go and oracle/lifecycle.go,
-- with pkg/math/oracle).
use orynx.Prelude.{
  true, ◌≡◌, refl, ap, ◌∙◌, inl, inr, Bool, [], ◌∷◌, none, some, Text, Text-discrete, arith,
  Result-cases,
}
use orynx.Prelude.Dict.{Dict, get, IsMap, put-IsMap}
use orynx.Provider.{recv, turn, restart, stop, response_ch_capacity}
use orynx.MarketMap.{MarketMap, get_valid_subset}
use orynx.MarketMap.Subset.{get_valid_subset_fixed, get_valid_subset-IsMap}
use orynx.SideCar.{
  ProviderTicker-discrete, PriceAggregator, PriceProvider, OracleImpl, market_map_tick,
  is_market_map_valid_updated,
}
use orynx.SideCar.Laws.{AggregatorLaws}
use orynx.SideCar.Fetched.{AreNamed, fetch_all_prices-config}
use orynx.SideCar.Spawned.{update_providers-IsMap, update_providers-AreNamed}
use orynx.SideCar.Updated.{
  Step, Reach, fetch, new_map, respond, started, restarted, stopped, here, next, All-put, with_map,
  with_provider, update_ok, is_market_map_valid_updated_sound,
}

module _ {Float : Type 0} (a : PriceAggregator Float) (l : AggregatorLaws a)
    (json_object : Text → Bool) where
  -- The keys of the providers and of the markets are distinct, and each provider stands under its name.
  pub record IsKeyed (o : OracleImpl a) : Type 0 where
    pub is_map : IsMap Text-discrete o.price_providers
    pub named : AreNamed a l o.price_providers
    pub markets : IsMap Text-discrete o.market_map

  -- The market maps that come in have distinct keys, as Go maps.
  abbrev pub IsMapStep : {E : Type 0} {m n : OracleImpl a} → Step a l json_object E m n → Type 0
  IsMapStep (fetch o clock) = Unit
  IsMapStep (new_map o mm height) = IsMap Text-discrete mm
  IsMapStep (respond o name p r e) = Unit
  IsMapStep (started o name p e) = Unit
  IsMapStep (restarted o name p e) = Unit
  IsMapStep (stopped o name p e) = Unit

  abbrev pub AreMapSteps : {E : Type 0} {m n : OracleImpl a} → Reach a l json_object E m n → Type 0
  AreMapSteps here = Unit
  AreMapSteps (next r s) = AreMapSteps r × IsMapStep s

  respond-name :
      {E : Type 0} (r : _) (p : PriceProvider a)
      → (recv ProviderTicker-discrete {E = E} r p).name ≡ p.name
  unfolding recv
  respond-name r p = refl

  turn-name : (p : PriceProvider a) → (turn p).1.name ≡ p.name
  unfolding turn
  turn-name p = elim (Result-cases (response_ch_capacity p)) [
    | inl (n, q) ↦ ground arith
    | inr (x, q) ↦ ground arith
  ]

  restart-name : (p : PriceProvider a) → (restart p).name ≡ p.name
  unfolding restart
  restart-name p = ground (arith, turn-name p)

  stop-name : (p : PriceProvider a) → (stop p).name ≡ p.name
  unfolding stop
  stop-name p = ground arith

  AreNamed-of :
      (name : Text) (p : PriceProvider a) (ps : Dict Text (PriceProvider a))
      → AreNamed a l ps
      → get Text-discrete name ps ≡ some p
      → p.name ≡ name
  unfolding get
  AreNamed-of name p [] h e = absurd (ground arith)
  AreNamed-of name p ((key, q) ∷ ps) h e = ground (arith, AreNamed-of name p ps h.1)

  with_provider-IsKeyed :
      (name : Text) (p p' : PriceProvider a) (o : OracleImpl a)
      → get Text-discrete name o.price_providers ≡ some p
      → p'.name ≡ p.name
      → IsKeyed o
      → IsKeyed (with_provider a l json_object name p' o)
  with_provider-IsKeyed name p p' o e same k = record {
    is_map = put-IsMap Text-discrete name p' o.price_providers k.is_map;
    named =
        All-put a l json_object (λ e. e.1.name ≡ e.0) name p' o.price_providers
          (same ∙ AreNamed-of name p o.price_providers k.named e) k.named;
    markets = k.markets;
  }

  with_map-IsKeyed :
      (subset : MarketMap) (o : OracleImpl a)
      → IsMap Text-discrete subset
      → IsKeyed o
      → IsKeyed (with_map a l json_object subset o)
  with_map-IsKeyed subset o i k = record {
    is_map = update_providers-IsMap a l subset o.price_providers o.spawned k.is_map;
    named = update_providers-AreNamed a l subset o.price_providers o.spawned k.named;
    markets = i;
  }

  market_map_tick-IsKeyed :
      (mm : MarketMap) (height : _) (o : OracleImpl a)
      → IsMap Text-discrete mm
      → IsKeyed o
      → IsKeyed (market_map_tick a json_object mm height o)
  unfolding market_map_tick
  market_map_tick-IsKeyed mm height o i k =
      elim (Result-cases (is_market_map_valid_updated a json_object mm o)) [
        | inr (e, p) ↦ rw (p, market_map_tick) k
        | inl (none, p) ↦ rw (p, market_map_tick) k
        | inl (some subset, p) ↦
            let (v, same, _, _) = is_market_map_valid_updated_sound a l json_object mm subset o p in
            let fixed = get_valid_subset_fixed json_object subset v in
            let step = update_ok a l json_object subset o (ap (λ r. r.1) fixed) in
            let new_keys : IsMap Text-discrete (get_valid_subset json_object subset).0 =
              rw fixed (rw same (get_valid_subset-IsMap json_object mm i)) in
            let now = with_map-IsKeyed (get_valid_subset json_object subset).0 o new_keys k in
            rw (p, market_map_tick)
              (rw step (record { is_map = now.is_map; named = now.named; markets = now.markets }))
      ]

  Step-IsKeyed :
      {E : Type 0} {m n : OracleImpl a} (s : Step a l json_object E m n)
      → IsMapStep s
      → IsKeyed m
      → IsKeyed n
  Step-IsKeyed (fetch o clock) h k =
      let (same, mm, ps) = fetch_all_prices-config a l clock o in
      record { is_map = rw ps k.is_map; named = rw ps k.named; markets = rw mm k.markets }
  Step-IsKeyed (new_map o mm height) h k = market_map_tick-IsKeyed mm height o h k
  Step-IsKeyed (respond o name p r e) h k = with_provider-IsKeyed name p _ o e (respond-name r p) k
  Step-IsKeyed (started o name p e) h k =
      with_provider-IsKeyed name p _ o e (turn-name (record p { main_ctx = some true })) k
  Step-IsKeyed (restarted o name p e) h k = with_provider-IsKeyed name p _ o e (restart-name p) k
  Step-IsKeyed (stopped o name p e) h k = with_provider-IsKeyed name p _ o e (stop-name p) k

  pub Reach-IsKeyed :
      {E : Type 0} {o n : OracleImpl a} (r : Reach a l json_object E o n)
      → AreMapSteps r
      → IsKeyed o
      → IsKeyed n
  Reach-IsKeyed here h k = k
  Reach-IsKeyed (next r s) h k = Step-IsKeyed s h.1 (Reach-IsKeyed r h.0 k)
