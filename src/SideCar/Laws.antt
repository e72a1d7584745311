-- ===== src/SideCar/Laws.antt =====
-- What the side-car relies on of its price aggregator, and that the aggregator of pkg/math/oracle has it.
use orynx.Prelude.{
  ◌≡◌, refl, [], Option, none, some, Text, Text-discrete, ite, arith, Result-cases, inl, inr,
}
use orynx.Prelude.Dict.{Dict, get, get-put}
use orynx.Prelude.Sorting.{StableSort}
use orynx.MarketMap.{MarketMap}
use orynx.BigMath.{Floats}
use orynx.IndexPrice.{IndexPriceAggregator, Panic, aggregate_markets}
use orynx.IndexPrice
use orynx.SideCar.{PriceAggregator}

pub record AggregatorLaws {Float : Type 0} (a : PriceAggregator Float) : Type 0 where
  -- The prices that the aggregator holds of the providers, and the market map it goes by.
  pub reported : a.State → Dict Text (Dict Text (Option Float))
  pub config : a.State → MarketMap
  pub reported-set :
      (key name : Text) (prices : Dict Text (Option Float)) (s : a.State)
      → get Text-discrete key (reported (a.set_provider_prices name (some prices) s))
        ≡ ite (Text-discrete key name) (some prices) (get Text-discrete key (reported s))
  pub reported-reset : (s : a.State) → reported (a.reset s) ≡ []
  pub reported-aggregate : (s : a.State) → reported (a.aggregate_prices s).1 ≡ reported s
  pub config-set :
      (name : Text) (prices : Option (Dict Text (Option Float))) (s : a.State)
      → config (a.set_provider_prices name prices s) ≡ config s
  pub config-reset : (s : a.State) → config (a.reset s) ≡ config s
  pub config-aggregate : (s : a.State) → config (a.aggregate_prices s).1 ≡ config s
  pub config-update : (mm : MarketMap) (s : a.State) → config (a.update_market_map mm s) ≡ mm

module _ (f : Floats) (s : StableSort f.Float) where
  abbrev pub index_price_aggregator : PriceAggregator f.Float
  index_price_aggregator = record {
    State = IndexPriceAggregator f;
    Panic = Panic;
    set_provider_prices = IndexPrice.set_provider_prices f;
    update_market_map = IndexPrice.update_market_map f;
    aggregate_prices = IndexPrice.aggregate_prices f s;
    get_prices = λ m. m.scaled_prices;
    reset = IndexPrice.reset f;
  }

  pub reported-set :
      (key name : Text) (prices : Dict Text (Option f.Float)) (m : IndexPriceAggregator f)
      → get Text-discrete key
          (IndexPrice.set_provider_prices f name (some prices) m).provider_prices
        ≡ ite (Text-discrete key name) (some prices) (get Text-discrete key m.provider_prices)
  unfolding IndexPrice.set_provider_prices
  reported-set key name prices m = get-put Text-discrete key name prices m.provider_prices

  pub kept-aggregate :
      (m : IndexPriceAggregator f)
      → let m' = (IndexPrice.aggregate_prices f s m).1 in
        (m'.provider_prices ≡ m.provider_prices) × (m'.cfg ≡ m.cfg)
  unfolding IndexPrice.aggregate_prices
  kept-aggregate m = elim (Result-cases (aggregate_markets f s m m.cfg ([], []))) [
    | inl (maps, p) ↦ ground arith
    | inr (x, p) ↦ ground arith
  ]

  pub kept :
      (name : Text) (prices : Option (Dict Text (Option f.Float))) (mm : MarketMap)
      (m : IndexPriceAggregator f)
      → ((IndexPrice.set_provider_prices f name prices m).cfg ≡ m.cfg)
        × ((IndexPrice.reset f m).provider_prices ≡ [])
        × ((IndexPrice.reset f m).cfg ≡ m.cfg)
        × ((IndexPrice.update_market_map f mm m).cfg ≡ mm)
  unfolding IndexPrice.set_provider_prices IndexPrice.reset IndexPrice.update_market_map
  kept name prices mm m = (refl, refl, refl, refl)

  -- The aggregator of pkg/math/oracle is one.
  abbrev pub index_price_laws : AggregatorLaws index_price_aggregator
  index_price_laws = record {
    reported = λ m. m.provider_prices;
    config = λ m. m.cfg;
    reported-set = reported-set;
    reported-reset = λ m. (kept [] none [] m).1;
    reported-aggregate = λ m. (kept-aggregate m).0;
    config-set = λ name prices m. (kept name prices [] m).0;
    config-reset = λ m. (kept [] none [] m).2;
    config-aggregate = λ m. (kept-aggregate m).1;
    config-update = λ mm m. (kept [] none mm m).3;
  }
