-- ===== src/IndexPrice/Aggregated.antt =====
-- What `AggregatePrices` (pkg/math/oracle/aggregator.go) leaves in the aggregator.
use orynx.Prelude.{
  ◌≡◌, refl, ap, sym, All, ◌∙◌, Bool, true, false, not, List, [], ◌∷◌, Option, none, some, Text,
  Text-discrete, Result, ok, or_fail, arith, ite, ◌⊎◌, inl, inr, length, ◌>>=◌, >>=-eq-ok,
  or_fail-eq-ok, Bool-cases, Result-cases, Option-cases, if◌then◌else◌,
}
use orynx.Prelude.Dict.{get, IsMap, get-put}
use orynx.Prelude.Sorting.{StableSort}
use orynx.MarketMap.{Market, MarketMap, ticker_string}
use orynx.BigMath.{Floats, calculate_median, scale_big_float}
use orynx.BigMath.Middle.{IsMiddle, calculate_median-IsMiddle}
use orynx.IndexPrice.{
  Prices, IndexPriceAggregator, Panic, calculate_converted_prices, too_few, median_price,
  market_price, set_market_price, aggregate_markets, aggregate_prices,
}
use orynx.IndexPrice.Converted.{AreConverted, calculate_converted_prices-AreConverted}

module _ (f : Floats) (s : StableSort f.Float) where
  open f use {Float}

  -- The market has enough converted prices, and these are their median and the median scaled.
  abbrev pub IsPriced : IndexPriceAggregator f → Market → Float → Float → Type 0
  IsPriced m market price scaled =
      (converted : List Float) × (market.ticker.enabled ≡ true)
      × AreConverted f m market.provider_configs converted
      × (too_few (length converted) market.ticker.min_provider_count ≡ false)
      × IsMiddle f converted price
      × (scale_big_float f price market.ticker.decimals ≡ some scaled)

  not_skipped :
      (b : Bool) (rest : Result Panic (Option (Float × Float))) {found : Float × Float}
      → (if b then ok none else rest) ≡ ok (some found)
      → (b ≡ false) × (rest ≡ ok (some found))
  not_skipped true rest e = absurd (ground arith)
  not_skipped false rest e = (refl, e)

  unskipped :
      (b : Bool) (rest : Result Panic (Option (Float × Float)))
      → b ≡ false
      → (if b then ok none else rest) ≡ ok none
      → rest ≡ ok none
  unskipped b rest f e = ground arith

  stopped :
      (b : Bool) (r : Result Panic (Float × Float))
      → (if b then ok none else (r >>= λ prices. ok (some prices))) ≡ ok none
      → b ≡ true
  stopped true r e = refl
  stopped false r e = let (prices, p, q) = >>=-eq-ok r _ e in absurd (ground arith)

  median_price_sound :
      (market : Market) (converted : List Float) (price scaled : Float)
      → median_price f s market converted ≡ ok (price, scaled)
      → IsMiddle f converted price × (scale_big_float f price market.ticker.decimals ≡ some scaled)
  unfolding median_price
  median_price_sound market converted price scaled e =
      let (median, p, e1) = >>=-eq-ok (or_fail (calculate_median f s converted) _) _ e in
      let (price', q, e2) = >>=-eq-ok (or_fail median _) _ e1 in
      let (scaled', r, e3) =
        >>=-eq-ok (or_fail (scale_big_float f price' market.ticker.decimals) _) _ e2 in
      let same : price' ≡ price = ground arith in
      let same' : scaled' ≡ scaled = ground arith in
      let found = or_fail-eq-ok _ _ p ∙ ap some (or_fail-eq-ok median _ q ∙ ap some same) in
      (
        calculate_median-IsMiddle f s converted found,
        ap (λ x. scale_big_float f x market.ticker.decimals) (sym same)
            ∙ or_fail-eq-ok _ _ r
            ∙ ap some same',
      )

  market_price-IsPriced :
      (m : IndexPriceAggregator f) (market : Market) (price scaled : Float)
      → market_price f s m market ≡ ok (some (price, scaled))
      → IsPriced m market price scaled
  unfolding market_price
  market_price-IsPriced m market price scaled e =
      let (on, e1) = not_skipped (not market.ticker.enabled) _ e in
      let (converted, p, e2) =
        >>=-eq-ok (calculate_converted_prices f m market.provider_configs) _ e1 in
      let (enough, e3) =
        not_skipped (too_few (length converted) market.ticker.min_provider_count) _ e2 in
      let ((price', scaled'), q, e4) = >>=-eq-ok (median_price f s market converted) _ e3 in
      let same : median_price f s market converted ≡ ok (price, scaled) = q ∙ ground arith in
      let (is_middle, is_scaled) = median_price_sound market converted price scaled same in
      (
        converted,
        ground arith,
        calculate_converted_prices-AreConverted f m market.provider_configs converted p,
        enough,
        is_middle,
        is_scaled,
      )

  -- The entry of a market after the loop, if it was `old` before.
  abbrev index_entry : Option (Float × Float) → Option (Option Float) → Option (Option Float)
  index_entry none old = old
  index_entry (some (price, scaled)) old = some (some price)

  abbrev scaled_entry : Option (Float × Float) → Option (Option Float) → Option (Option Float)
  scaled_entry none old = old
  scaled_entry (some (price, scaled)) old = some (some scaled)

  get-set_market_price :
      (t : Text) (market : Market) (found : Option (Float × Float)) (prices : Prices f × Prices f)
      → let after = set_market_price f s market found prices in
        let here = Text-discrete t (ticker_string market) in
        (get Text-discrete t after.0
          ≡ ite here
              (index_entry found (get Text-discrete t prices.0))
              (get Text-discrete t prices.0))
        × (get Text-discrete t after.1
            ≡ ite here
                (scaled_entry found (get Text-discrete t prices.1))
                (get Text-discrete t prices.1))
  get-set_market_price t market none prices = ground arith
  get-set_market_price t market (some (price, scaled)) prices = (
    get-put Text-discrete t (ticker_string market) (some price) prices.0,
    get-put Text-discrete t (ticker_string market) (some scaled) prices.1,
  )

  get-set_same :
      (t : Text) (market : Market) (found : Option (Float × Float)) (prices : Prices f × Prices f)
      → t ≡ ticker_string market
      → let after = set_market_price f s market found prices in
        (get Text-discrete t after.0 ≡ index_entry found (get Text-discrete t prices.0))
        × (get Text-discrete t after.1 ≡ scaled_entry found (get Text-discrete t prices.1))
  get-set_same t market found prices h = ground (arith, get-set_market_price t market found prices)

  get-set_other :
      (t : Text) (market : Market) (found : Option (Float × Float)) (prices : Prices f × Prices f)
      → ¬ (t ≡ ticker_string market)
      → let after = set_market_price f s market found prices in
        (get Text-discrete t after.0 ≡ get Text-discrete t prices.0)
        × (get Text-discrete t after.1 ≡ get Text-discrete t prices.1)
  get-set_other t market found prices h = ground (arith, get-set_market_price t market found prices)

  -- Every market stands under the string of its ticker.
  abbrev pub AreKeyed : MarketMap → Type 0
  AreKeyed mm = All (λ (e : Text × Market). e.0 ≡ ticker_string e.1) mm

  aggregate_markets-get :
      (m : IndexPriceAggregator f) (markets : MarketMap) (prices prices' : Prices f × Prices f)
      → IsMap Text-discrete markets
      → AreKeyed markets
      → aggregate_markets f s m markets prices ≡ ok prices'
      → (t : Text)
      → (get Text-discrete t markets ≡ none
          → (get Text-discrete t prices'.0 ≡ get Text-discrete t prices.0)
            × (get Text-discrete t prices'.1 ≡ get Text-discrete t prices.1))
        × ((market : Market)
            → get Text-discrete t markets ≡ some market
            → (found : Option (Float × Float)) × (market_price f s m market ≡ ok found)
              × (get Text-discrete t prices'.0 ≡ index_entry found (get Text-discrete t prices.0))
              × (get Text-discrete t prices'.1 ≡ scaled_entry found (get Text-discrete t prices.1)))
  unfolding aggregate_markets get
  aggregate_markets-get m [] prices prices' i k e t =
      (λ n. ground arith, λ market g. absurd (ground arith))
  aggregate_markets-get m ((key, mk) ∷ markets) prices prices' i k e t =
      let (found, p, e1) = >>=-eq-ok (market_price f s m mk) _ e in
      let (none_case, some_case) =
        aggregate_markets-get m markets (set_market_price f s mk found prices) prices' i.1 k.1 e1
          t in
      let (a, b) = get-set_market_price t mk found prices in
      (
        λ n. ground (arith, none_case, k.0, a, b),
        λ market g. elim (Text-discrete t key) [
          | yes y ↦
              let (c, d) = none_case (rw y i.0) in
              let same = get-set_same t mk found prices (y ∙ k.0) in
              (found, ground arith, c ∙ same.0, d ∙ same.1)
          | no y ↦
              let (found', q, c, d) = some_case market (ground arith) in
              let other = get-set_other t mk found prices (λ z. y (z ∙ sym k.0)) in
              (found', q, c ∙ ap (index_entry found') other.0, d ∙ ap (scaled_entry found') other.1)
        ],
      )

  -- The market is disabled, or has fewer converted prices than it needs.
  abbrev pub IsSkipped : IndexPriceAggregator f → Market → Type 0
  IsSkipped m market =
      (market.ticker.enabled ≡ false)
      ⊎ (converted : List Float) × AreConverted f m market.provider_configs converted
        × (too_few (length converted) market.ticker.min_provider_count ≡ true)

  market_price-IsSkipped :
      (m : IndexPriceAggregator f) (market : Market)
      → market_price f s m market ≡ ok none
      → IsSkipped m market
  unfolding market_price
  market_price-IsSkipped m market e = elim (Bool-cases market.ticker.enabled) [
    | inr off ↦ inl off
    | inl on ↦
        let e1 = unskipped (not market.ticker.enabled) _ (ground arith) e in
        let (converted, p, e2) =
          >>=-eq-ok (calculate_converted_prices f m market.provider_configs) _ e1 in
        inr (
          converted,
          calculate_converted_prices-AreConverted f m market.provider_configs converted p,
          stopped (too_few (length converted) market.ticker.min_provider_count) _ e2,
        )
  ]

  abbrev pub HasPrices : IndexPriceAggregator f → IndexPriceAggregator f → Text → Type 0
  HasPrices m m' t =
      (market : Market) × (price : Float) × (scaled : Float) × (get Text-discrete t m.cfg
        ≡ some market)
      × IsPriced m market price scaled
      × (get Text-discrete t m'.index_prices ≡ some (some price))
      × (get Text-discrete t m'.scaled_prices ≡ some (some scaled))

  abbrev pub HasNoPrices : IndexPriceAggregator f → IndexPriceAggregator f → Text → Type 0
  HasNoPrices m m' t =
      ((market : Market) → get Text-discrete t m.cfg ≡ some market → IsSkipped m market)
      × (get Text-discrete t m'.index_prices ≡ none)
      × (get Text-discrete t m'.scaled_prices ≡ none)

  -- The two maps that the loop fills.
  aggregated :
      (m m' : IndexPriceAggregator f)
      → aggregate_prices f s m ≡ (ok tt, m')
      → aggregate_markets f s m m.cfg ([], []) ≡ ok (m'.index_prices, m'.scaled_prices)
  unfolding aggregate_prices
  aggregated m m' e = elim (Result-cases (aggregate_markets f s m m.cfg ([], []))) [
    | inl (maps, p) ↦ ground arith
    | inr (x, p) ↦ absurd (ground arith)
  ]

  market_indexed :
      (m m' : IndexPriceAggregator f) (t : Text) (market : Market) (found : Option (Float × Float))
      → get Text-discrete t m.cfg ≡ some market
      → market_price f s m market ≡ ok found
      → get Text-discrete t m'.index_prices ≡ index_entry found none
      → get Text-discrete t m'.scaled_prices ≡ scaled_entry found none
      → HasPrices m m' t ⊎ HasNoPrices m m' t
  market_indexed m m' t market (some (price, scaled)) g p a b =
      inl (market, price, scaled, g, market_price-IsPriced m market price scaled p, a, b)
  market_indexed m m' t market none g p a b =
      inr (λ other h. market_price-IsSkipped m other (ground arith), a, b)

  -- If `AggregatePrices` does not panic, on a market map whose markets stand under their tickers, then
  -- for every ticker there is either a market that is enabled and has enough converted prices, by the
  -- index prices of the round before, and the new index price is their median and the new price this
  -- median scaled; or there are no prices, and the market, if there is one, is disabled or short of
  -- converted prices.
  pub aggregate_prices-HasPrices :
      (m m' : IndexPriceAggregator f)
      → IsMap Text-discrete m.cfg
      → AreKeyed m.cfg
      → aggregate_prices f s m ≡ (ok tt, m')
      → (t : Text) → HasPrices m m' t ⊎ HasNoPrices m m' t
  unfolding get
  aggregate_prices-HasPrices m m' i k e t =
      let (absent, present) =
        aggregate_markets-get m m.cfg ([], []) (m'.index_prices, m'.scaled_prices) i k
          (aggregated m m' e) t in
      elim (Option-cases (get Text-discrete t m.cfg)) [
        | inl n ↦ inr (λ market g. absurd (ground arith), (absent n).0, (absent n).1)
        | inr (market, g) ↦
            let (found, p, a, b) = present market g in market_indexed m m' t market found g p a b
      ]
