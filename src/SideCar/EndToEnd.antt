-- ===== src/SideCar/EndToEnd.antt =====
-- A round of the side-car (oracle/update.go) with the aggregator of pkg/math/oracle: from what the
-- providers hold to the prices that the side-car serves.
use orynx.Prelude.{
  ◌≡◌, refl, sym, ap, ◌∙◌, ◌⊎◌, inl, inr, [], ◌∷◌, some, Text, Text-discrete, ok, err, arith,
  Option-cases, Result-cases,
}
use orynx.Prelude.Dict.{Dict, get, IsMap}
use orynx.Prelude.Sorting.{StableSort}
use orynx.BigMath.{Floats}
use orynx.IndexPrice.{IndexPriceAggregator, Panic, aggregate_prices, aggregate_markets}
use orynx.IndexPrice
use orynx.IndexPrice.Aggregated.{AreKeyed, HasPrices, HasNoPrices, aggregate_prices-HasPrices}
use orynx.SideCar.{
  OracleImpl, Clock, PriceProvider, fetch_prices, fetch_each, fetch_all_prices, filter_prices,
}
use orynx.SideCar.Laws.{index_price_aggregator, index_price_laws, kept-aggregate}
use orynx.SideCar.Fetched.{
  contribution, AreNamed, fetch_all_prices-reported, fetch_all_prices_fields,
}

module _ (f : Floats) (s : StableSort f.Float) where
  abbrev pub SideCar : Type 0
  SideCar = OracleImpl (index_price_aggregator f s)

  -- The aggregator keeps its prices and its market map.
  abbrev pub IsKept : IndexPriceAggregator f → IndexPriceAggregator f → Type 0
  IsKept m m' =
      (m'.index_prices ≡ m.index_prices) × (m'.scaled_prices ≡ m.scaled_prices) × (m'.cfg ≡ m.cfg)

  fetch_prices-IsKept :
      (clock : Clock (index_price_aggregator f s)) (max_age : _)
      (p : PriceProvider (index_price_aggregator f s)) (m : IndexPriceAggregator f)
      → IsKept m (fetch_prices (index_price_aggregator f s) clock max_age p m)
  unfolding fetch_prices IndexPrice.set_provider_prices
  fetch_prices-IsKept clock max_age p m =
      elim (Option-cases (
        filter_prices (index_price_aggregator f s) (clock.at_price p.name) max_age p.provider_data
          [])) [ inl n ↦ ground arith | inr (prices, e) ↦ ground arith ]

  fetch_each-IsKept :
      (clock : Clock (index_price_aggregator f s)) (max_age : _)
      (ps : Dict Text (PriceProvider (index_price_aggregator f s))) (m : IndexPriceAggregator f)
      → IsKept m (fetch_each (index_price_aggregator f s) clock max_age ps m)
  unfolding fetch_each
  fetch_each-IsKept clock max_age [] m = (refl, refl, refl)
  fetch_each-IsKept clock max_age ((name, p) ∷ ps) m =
      let m1 = fetch_prices (index_price_aggregator f s) clock max_age p m in
      let (a, b, c) = fetch_each-IsKept clock max_age ps m1 in
      let (d, e, g) = fetch_prices-IsKept clock max_age p m in (a ∙ d, b ∙ e, c ∙ g)

  reset-IsKept : (m : IndexPriceAggregator f) → IsKept m (IndexPrice.reset f m)
  unfolding IndexPrice.reset
  reset-IsKept m = (refl, refl, refl)

  -- The aggregator when it begins to aggregate: the index prices and the market map of before the round,
  -- and what the providers contribute to this round.
  abbrev pub IsGathered :
      Clock (index_price_aggregator f s) → SideCar → IndexPriceAggregator f → Type 0
  IsGathered clock o m =
      IsKept o.aggregator m
      × ((key : Text)
          → get Text-discrete key m.provider_prices
            ≡ contribution (index_price_aggregator f s) (index_price_laws f s) clock o.max_price_age
                (get Text-discrete key o.price_providers))

  gathered : Clock (index_price_aggregator f s) → SideCar → IndexPriceAggregator f
  gathered clock o =
      fetch_each (index_price_aggregator f s) clock o.max_price_age o.price_providers
        (IndexPrice.reset f o.aggregator)

  gathered-IsGathered :
      (clock : Clock (index_price_aggregator f s)) (o : SideCar)
      → IsMap Text-discrete o.price_providers
      → AreNamed (index_price_aggregator f s) (index_price_laws f s) o.price_providers
      → IsGathered clock o (gathered clock o)
  unfolding gathered
  gathered-IsGathered clock o i n =
      let a = index_price_aggregator f s in
      let l = index_price_laws f s in
      let m = gathered clock o in
      let (x, y, z) =
        fetch_each-IsKept clock o.max_price_age o.price_providers
          (IndexPrice.reset f o.aggregator) in
      let (x', y', z') = reset-IsKept o.aggregator in
      let (new, _, _) = fetch_all_prices_fields a l clock o in
      let (held, _, _, _) = fetch_all_prices-reported a l clock o i n in
      let same : m.provider_prices ≡ (fetch_all_prices a clock o).aggregator.provider_prices =
        sym ((kept-aggregate f s m).0)
        ∙ sym (ap (λ (k : IndexPriceAggregator f). k.provider_prices) new) in
      ((x ∙ x', y ∙ y', z ∙ z'), λ key. ap (get Text-discrete key) same ∙ held key)

  -- The two ends of a round.
  finished :
      (clock : Clock (index_price_aggregator f s)) (o : SideCar)
      → (aggregate_prices f s (gathered clock o)
            ≡ (ok tt, (fetch_all_prices (index_price_aggregator f s) clock o).aggregator))
          × ((fetch_all_prices (index_price_aggregator f s) clock o).last_price_sync
              ≡ some clock.at_sync)
        ⊎ ((x : Panic) × (aggregate_prices f s (gathered clock o)
              ≡ (err x, (fetch_all_prices (index_price_aggregator f s) clock o).aggregator)))
          × ((fetch_all_prices (index_price_aggregator f s) clock o).aggregator ≡ gathered clock o)
          × ((fetch_all_prices (index_price_aggregator f s) clock o).last_price_sync
              ≡ o.last_price_sync)
  unfolding fetch_all_prices gathered aggregate_prices
  finished clock o =
      let m = gathered clock o in
      elim (Result-cases (aggregate_markets f s m m.cfg ([], []))) [
        | inl (maps, p) ↦ inl (ground arith)
        | inr (x, p) ↦ inr ((x, ground arith), ground arith, ground arith)
      ]

  -- A round of the side-car begins to aggregate with the index prices and the market map of before, and
  -- with what each provider contributes to this round. If the aggregation does not panic, the time of the
  -- sync is set, and for every ticker the prices are the median of the converted prices, and this median
  -- scaled, or there are none since the market is disabled or short of prices. If it panics, the served
  -- prices, the index prices and the time of the last sync are as they were.
  pub fetch_all_prices-HasPrices :
      (clock : Clock (index_price_aggregator f s)) (o : SideCar)
      → IsMap Text-discrete o.price_providers
      → AreNamed (index_price_aggregator f s) (index_price_laws f s) o.price_providers
      → IsMap Text-discrete o.aggregator.cfg
      → AreKeyed f s o.aggregator.cfg
      → let o' = fetch_all_prices (index_price_aggregator f s) clock o in
        (m : IndexPriceAggregator f) × IsGathered clock o m
        × ((aggregate_prices f s m ≡ (ok tt, o'.aggregator))
              × (o'.last_price_sync ≡ some clock.at_sync)
              × ((t : Text) → HasPrices f s m o'.aggregator t ⊎ HasNoPrices f s m o'.aggregator t)
            ⊎ ((x : Panic) × (aggregate_prices f s m ≡ (err x, o'.aggregator)))
              × (o'.last_price_sync ≡ o.last_price_sync)
              × IsKept o.aggregator o'.aggregator)
  fetch_all_prices-HasPrices clock o i n j k =
      let g = gathered-IsGathered clock o i n in
      (
        gathered clock o,
        g,
        elim (finished clock o) [
          | inl (e, t) ↦ inl (
            e,
            t,
            aggregate_prices-HasPrices f s (gathered clock o) _ (rw g.0.2 j) (rw g.0.2 k) e,
          )
          | inr (p, e, t) ↦ inr (p, t, rw e g.0)
        ],
      )
