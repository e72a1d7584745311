-- ===== src/SideCar/Served.antt =====
-- What the side-car with the aggregator of pkg/math/oracle serves after each round of each run, from the
-- start on (oracle/update.go and oracle/lifecycle.go).
use orynx.Prelude.{◌≡◌, ◌⊎◌, [], ◌∷◌, Bool, Text, Text-discrete, some, ok, err, All}
use orynx.Prelude.Dict.{IsMap}
use orynx.Prelude.Sorting.{StableSort}
use orynx.BigMath.{Floats}
use orynx.MarketMap.{MarketMap}
use orynx.MarketMap.Valid.{IsValidEntry, validate_market_map_iff}
use orynx.IndexPrice.{IndexPriceAggregator, Panic, aggregate_prices}
use orynx.IndexPrice.Aggregated.{AreKeyed, HasPrices, HasNoPrices}
use orynx.Config.{OracleConfig}
use orynx.SideCar.{Clock, fetch_all_prices}
use orynx.SideCar.Laws.{index_price_aggregator, index_price_laws}
use orynx.SideCar.EndToEnd.{SideCar, IsGathered, IsKept, fetch_all_prices-HasPrices}
use orynx.SideCar.Updated.{Reach, IsConsistent, Reach-IsConsistent}
use orynx.SideCar.Runs.{IsKeyed, AreMapSteps, Reach-IsKeyed}
use orynx.SideCar.Lifecycle.{Oracle}
use orynx.SideCar.Lifecycle.Started.{IsReady}

module _ (f : Floats) (s : StableSort f.Float) (json_object : Text → Bool) where
  valid-AreKeyed :
      (mm entries : MarketMap) → All (IsValidEntry json_object mm) entries → AreKeyed f s entries
  valid-AreKeyed mm [] v = tt
  valid-AreKeyed mm ((key, market) ∷ entries) v = (v.0.1, valid-AreKeyed mm entries v.1)

  -- In every run from a consistent state with distinct keys, in which the market maps that come in have
  -- distinct keys, each round of the side-car begins to aggregate with the index prices and the market
  -- map of before, and with what each provider contributes to this round. If the aggregation does not
  -- panic, the time of the sync is set, and for every ticker the prices are the median of the converted
  -- prices, and this median scaled, or there are none since the market is disabled or short of prices.
  -- If it panics, the served prices, the index prices and the time of the last sync are as they were.
  pub Reach-HasPrices :
      {E : Type 0} {o n : SideCar f s}
      (r : Reach (index_price_aggregator f s) (index_price_laws f s) json_object E o n)
      (clock : Clock (index_price_aggregator f s))
      → IsConsistent (index_price_aggregator f s) (index_price_laws f s) json_object o
      → IsKeyed (index_price_aggregator f s) (index_price_laws f s) json_object o
      → AreMapSteps (index_price_aggregator f s) (index_price_laws f s) json_object r
      → let n' = fetch_all_prices (index_price_aggregator f s) clock n in
        (m : IndexPriceAggregator f) × IsGathered f s clock n m
        × ((aggregate_prices f s m ≡ (ok tt, n'.aggregator))
              × (n'.last_price_sync ≡ some clock.at_sync)
              × ((t : Text) → HasPrices f s m n'.aggregator t ⊎ HasNoPrices f s m n'.aggregator t)
            ⊎ ((x : Panic) × (aggregate_prices f s m ≡ (err x, n'.aggregator)))
              × (n'.last_price_sync ≡ n.last_price_sync)
              × IsKept f s n.aggregator n'.aggregator)
  Reach-HasPrices {n} r clock c k h =
      let a = index_price_aggregator f s in
      let l = index_price_laws f s in
      let c' = Reach-IsConsistent a l json_object r c in
      let k' = Reach-IsKeyed a l json_object r h k in
      let keyed =
        valid-AreKeyed n.market_map n.market_map
          ((validate_market_map_iff json_object n.market_map).0 c'.valid) in
      fetch_all_prices-HasPrices f s clock n k'.is_map k'.named (rw c'.shared k'.markets)
        (rw c'.shared keyed)

  -- A side-car that has started may begin such a run.
  pub IsReady-IsKeyed :
      (cfg : OracleConfig) (o : Oracle (index_price_aggregator f s) json_object)
      → IsReady (index_price_aggregator f s) (index_price_laws f s) json_object cfg o
      → IsMap Text-discrete o.impl.market_map
      → IsConsistent (index_price_aggregator f s) (index_price_laws f s) json_object o.impl
        × IsKeyed (index_price_aggregator f s) (index_price_laws f s) json_object o.impl
  IsReady-IsKeyed cfg o ready i =
      (ready.consistent, record { is_map = ready.is_map; named = ready.named; markets = i })
