-- ===== src/IndexPrice/Converted.antt =====
-- What `CalculateAdjustedPrice` and `CalculateConvertedPrices` (pkg/math/oracle) return.
use orynx.Prelude.{
  ◌≡◌, refl, ap, ◌∙◌, ◌↔◌, Bool, true, false, List, [], ◌∷◌, Option, none, some, Text-discrete,
  Result, ok, err, or_fail, arith, ◌⊎◌, inl, inr, if◌then◌else◌, ◌>>=◌, >>=-eq-ok, Result-cases,
  or_fail-eq-ok,
}
use orynx.Prelude.Dict.{get}
use orynx.CurrencyPair.{CurrencyPair, to_string}
use orynx.MarketMap.{ProviderConfig}
use orynx.BigMath.{Floats}
use orynx.IndexPrice.{
  Prices, IndexPriceAggregator, PriceError, Panic, panicked, get_provider_price, get_index_price,
  add_converted, missing_provider, missing_price, nil_price, missing_index, nil_index,
  calculate_adjusted_price, calculate_converted_prices,
}

module _ (f : Floats) where
  open f use {Float, mul, quo, new_float_one}

  -- The provider reported a price under the off-chain ticker, and this is it, or its inverse.
  abbrev pub IsReported : IndexPriceAggregator f → ProviderConfig → Float → Type 0
  IsReported m pc price =
      (cache : Prices f) × (raw : Float) × (get Text-discrete pc.name m.provider_prices
        ≡ some cache)
      × (get Text-discrete pc.off_chain_ticker cache ≡ some (some raw))
      × ((pc.inverted ≡ true) × (quo new_float_one raw ≡ some price)
          ⊎ (pc.inverted ≡ false) × (raw ≡ price))

  -- The reported price, converted by the index price of the last round if a pair to convert by is given.
  abbrev pub IsConverted : IndexPriceAggregator f → ProviderConfig → Float → Type 0
  IsConverted m pc price =
      (reported : Float) × IsReported m pc reported
      × ((pc.normalize_by_pair ≡ none) × (reported ≡ price)
          ⊎ (cp : CurrencyPair) × (index : Float) × (pc.normalize_by_pair ≡ some cp)
            × (get Text-discrete (to_string cp) m.index_prices ≡ some (some index))
            × (mul reported index ≡ some price))

  inverted_price :
      (b : Bool) (raw price : Float)
      → (if b then or_fail (quo new_float_one raw) panicked else ok raw) ≡ ok price
      → ((b ≡ true) × (quo new_float_one raw ≡ some price) ⊎ (b ≡ false) × (raw ≡ price))
  inverted_price true raw price e = inl (refl, or_fail-eq-ok (quo new_float_one raw) panicked e)
  inverted_price false raw price e = inr (refl, ground arith)

  get_provider_price_sound :
      (m : IndexPriceAggregator f) (pc : ProviderConfig) (price : Float)
      → get_provider_price f m pc ≡ ok price
      → IsReported m pc price
  unfolding get_provider_price
  get_provider_price_sound m pc price e =
      let (cache, p, e1) =
        >>=-eq-ok (or_fail (get Text-discrete pc.name m.provider_prices) _) _ e in
      let (found, q, e2) =
        >>=-eq-ok (or_fail (get Text-discrete pc.off_chain_ticker cache) _) _ e1 in
      let (raw, r, e3) = >>=-eq-ok (or_fail found _) _ e2 in
      let filled = or_fail-eq-ok found _ r in
      (
        cache,
        raw,
        or_fail-eq-ok _ _ p,
        or_fail-eq-ok _ _ q ∙ ap some filled,
        inverted_price pc.inverted raw price e3,
      )

  convert_price :
      (m : IndexPriceAggregator f) (o : Option CurrencyPair) (reported price : Float)
      → (elim o [
        | none ↦ ok reported
        | some cp ↦ get_index_price f m cp >>= λ index. or_fail (mul reported index) panicked
      ])
        ≡ ok price
      → ((o ≡ none) × (reported ≡ price)
          ⊎ (cp : CurrencyPair) × (index : Float) × (o ≡ some cp)
            × (get Text-discrete (to_string cp) m.index_prices ≡ some (some index))
            × (mul reported index ≡ some price))
  unfolding get_index_price
  convert_price m none reported price e = inl (refl, ground arith)
  convert_price m (some cp) reported price e =
      let (index, p, e1) = >>=-eq-ok (get_index_price f m cp) _ e in
      let (found, q, e2) =
        >>=-eq-ok (or_fail (get Text-discrete (to_string cp) m.index_prices) _) _ p in
      inr (
        cp,
        index,
        refl,
        or_fail-eq-ok _ _ q ∙ ap some (or_fail-eq-ok found _ e2),
        or_fail-eq-ok (mul reported index) _ e1,
      )

  adjusted_sound :
      (m : IndexPriceAggregator f) (pc : ProviderConfig) (price : Float)
      → calculate_adjusted_price f m pc ≡ ok price
      → IsConverted m pc price
  unfolding calculate_adjusted_price
  adjusted_sound m pc price e =
      let (reported, p, e1) = >>=-eq-ok (get_provider_price f m pc) _ e in
      (
        reported,
        get_provider_price_sound m pc reported p,
        convert_price m pc.normalize_by_pair reported price e1,
      )

  adjusted_complete :
      (m : IndexPriceAggregator f) (pc : ProviderConfig) (price : Float)
      → IsConverted m pc price
      → calculate_adjusted_price f m pc ≡ ok price
  unfolding calculate_adjusted_price get_provider_price get_index_price
  adjusted_complete m pc price (reported, (cache, raw, p, q, inl (i, r)), inl (n, e)) = ground arith
  adjusted_complete m pc price (reported, (cache, raw, p, q, inr (i, r)), inl (n, e)) = ground arith
  adjusted_complete m pc price (reported, (cache, raw, p, q, inl (i, r)), inr (cp, x, n, g, e)) =
      ground arith
  adjusted_complete m pc price (reported, (cache, raw, p, q, inr (i, r)), inr (cp, x, n, g, e)) =
      ground arith

  -- The adjusted price of a provider is the price that it reported under its off-chain ticker, inverted
  -- if its configuration says so, and multiplied by the index price of the last round for the pair to
  -- normalize by, if there is one; there is no adjusted price otherwise.
  pub calculate_adjusted_price_iff :
      (m : IndexPriceAggregator f) (pc : ProviderConfig) (price : Float)
      → (calculate_adjusted_price f m pc ≡ ok price) ↔ IsConverted m pc price
  calculate_adjusted_price_iff m pc price =
      (adjusted_sound m pc price, adjusted_complete m pc price)

  -- The converted prices of the providers, in their order; a provider without one is left out.
  pub data AreConverted (m : IndexPriceAggregator f)
      : List ProviderConfig → List Float → Type 0 where
    done : AreConverted m [] []
    taken :
        (pc : ProviderConfig) (price : Float) {pcs : List ProviderConfig} {prices : List Float}
        → IsConverted m pc price
        → AreConverted m pcs prices
        → AreConverted m (pc ∷ pcs) (price ∷ prices)
    skipped :
        (pc : ProviderConfig) {pcs : List ProviderConfig} {prices : List Float}
        → ((price : Float) → ¬ IsConverted m pc price)
        → AreConverted m pcs prices
        → AreConverted m (pc ∷ pcs) prices

  not-IsConverted :
      (m : IndexPriceAggregator f) (pc : ProviderConfig) {e : PriceError}
      → calculate_adjusted_price f m pc ≡ err e
      → (price : Float) → ¬ IsConverted m pc price
  not-IsConverted m pc h price c = let k = adjusted_complete m pc price c in cc

  rest_of :
      (e : PriceError) {rest : Result Panic (List Float)} {prices : List Float}
      → add_converted f (err e) rest ≡ ok prices
      → rest ≡ ok prices
  rest_of missing_provider h = h
  rest_of missing_price h = h
  rest_of nil_price h = h
  rest_of missing_index h = h
  rest_of nil_index h = h
  rest_of panicked h = cc

  pub calculate_converted_prices-AreConverted :
      (m : IndexPriceAggregator f) (pcs : List ProviderConfig) (prices : List Float)
      → calculate_converted_prices f m pcs ≡ ok prices
      → AreConverted m pcs prices
  unfolding calculate_converted_prices
  calculate_converted_prices-AreConverted m [] [] e = done
  calculate_converted_prices-AreConverted m [] (x ∷ xs) e = cc
  calculate_converted_prices-AreConverted m (pc ∷ pcs) prices e =
      elim (Result-cases (calculate_adjusted_price f m pc)) [
        | inl (price, p) ↦
            let (rest, q, h) = >>=-eq-ok (calculate_converted_prices f m pcs) _ (rw p at e) in
            let all : prices ≡ price ∷ rest = ground arith in
            rw all (
              taken pc price (adjusted_sound m pc price p)
                (calculate_converted_prices-AreConverted m pcs rest q))
        | inr (x, p) ↦
            skipped pc (not-IsConverted m pc p)
              (calculate_converted_prices-AreConverted m pcs prices (rest_of x (rw p at e)))
      ]
