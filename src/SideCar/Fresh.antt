-- ===== src/SideCar/Fresh.antt =====
-- Which prices of a provider `fetchPrices` (oracle/update.go) passes on.
use orynx.Prelude.{
  ℕ, ◌≡◌, ◌≢◌, refl, ◌⊎◌, inl, inr, false, [], ◌∷◌, Option, none, some, Text, Text-discrete, arith,
  All, Option-cases, Bool-cases,
}
use orynx.Prelude.Dict.{Dict, get, put, get-put}
use orynx.Provider.{ResolvedResult}
use orynx.SideCar.{ProviderTicker, PriceAggregator, filter_prices, is_stale}

module _ {Float : Type 0} (a : PriceAggregator Float) (now : ProviderTicker → ℕ) (max_age : ℕ) where
  abbrev pub Results : Type 0
  Results = Dict ProviderTicker (ResolvedResult (Option Float))

  abbrev pub IsFresh : ProviderTicker × ResolvedResult (Option Float) → Type 0
  IsFresh e = is_stale a max_age (now e.0) e.1.timestamp ≡ false

  -- A fresh result for the off-chain ticker has this price.
  pub data HasFresh (x : Text) (price : Float) : Results → Type 0 where
    here :
        (e : ProviderTicker × ResolvedResult (Option Float)) {rest : Results}
        → IsFresh e
        → x ≡ e.0.off_chain_ticker
        → e.1.value ≡ some price
        → HasFresh x price (e ∷ rest)
    there :
        (e : ProviderTicker × ResolvedResult (Option Float)) {rest : Results}
        → HasFresh x price rest
        → HasFresh x price (e ∷ rest)

  -- The price of `x` is one of those, or was there before.
  abbrev From : Text → Results → Option (Option Float) → Option Float → Type 0
  From x results old none = old ≡ some none
  From x results old (some price) = HasFresh x price results ⊎ (old ≡ some (some price))

  From-there :
      (e : ProviderTicker × ResolvedResult (Option Float)) (x : Text) (results : Results)
      (old : Option (Option Float)) (found : Option Float)
      → From x results old found
      → From x (e ∷ results) old found
  From-there e x results old none h = h
  From-there e x results old (some price) (inl h) = inl (there e h)
  From-there e x results old (some price) (inr h) = inr h

  From-put :
      (e : ProviderTicker × ResolvedResult (Option Float)) (price : Float) (x : Text)
      (results : Results) (prices : Dict Text (Option Float)) (found : Option Float)
      → IsFresh e
      → e.1.value ≡ some price
      → From x results
          (get Text-discrete x (put Text-discrete e.0.off_chain_ticker (some price) prices))
          found
      → From x (e ∷ results) (get Text-discrete x prices) found
  From-put e price x results prices none f v h =
      ground (arith, get-put Text-discrete x e.0.off_chain_ticker (some price) prices)
  From-put e price x results prices (some p) f v (inl h) = inl (there e h)
  From-put e price x results prices (some p) f v (inr h) =
      elim (Text-discrete x e.0.off_chain_ticker) [
        | yes y ↦ inl (
            here e f y
              (ground (arith, y, get-put Text-discrete x e.0.off_chain_ticker (some price) prices)))
        | no y ↦
            inr
              (ground (arith, y, get-put Text-discrete x e.0.off_chain_ticker (some price) prices))
      ]

  filter_prices-From :
      (results : Results) (old prices : Dict Text (Option Float)) (x : Text) (found : Option Float)
      → filter_prices a now max_age results old ≡ some prices
      → get Text-discrete x prices ≡ some found
      → From x results (get Text-discrete x old) found
  unfolding filter_prices
  filter_prices-From [] old prices x none e g = ground arith
  filter_prices-From [] old prices x (some p) e g = inr (ground arith)
  filter_prices-From ((ticker, r) ∷ results) old prices x found e g =
      elim (Bool-cases (is_stale a max_age (now ticker) r.timestamp)) [
        | inl stale ↦
            From-there (ticker, r) x results (get Text-discrete x old) found
              (filter_prices-From results old prices x found (ground arith) g)
        | inr fresh ↦ elim (Option-cases r.value) [
          | inl n ↦ absurd (ground arith)
          | inr (price, v) ↦
              From-put (ticker, r) price x results old found fresh v
                (filter_prices-From results
                  (put Text-discrete ticker.off_chain_ticker (some price) old) prices x found
                  (ground arith) g)
        ]
      ]

  filter_prices_keeps :
      (results : Results) (old prices : Dict Text (Option Float)) (x : Text)
      → filter_prices a now max_age results old ≡ some prices
      → get Text-discrete x old ≢ none
      → get Text-discrete x prices ≢ none
  unfolding filter_prices
  filter_prices_keeps [] old prices x e h = λ n. h (ground arith)
  filter_prices_keeps ((ticker, r) ∷ results) old prices x e h =
      elim (Bool-cases (is_stale a max_age (now ticker) r.timestamp)) [
        | inl stale ↦ filter_prices_keeps results old prices x (ground arith) h
        | inr fresh ↦ elim (Option-cases r.value) [
          | inl n ↦ absurd (ground arith)
          | inr (price, v) ↦
              filter_prices_keeps results
                (put Text-discrete ticker.off_chain_ticker (some price) old) prices x (ground arith)
                (λ n. h (
                  ground (arith, get-put Text-discrete x ticker.off_chain_ticker (some price) old)))
        ]
      ]

  filter_prices-IsFresh :
      (results : Results) (old prices : Dict Text (Option Float))
      → filter_prices a now max_age results old ≡ some prices
      → All
          (λ (e : ProviderTicker × ResolvedResult (Option Float)).
            IsFresh e → get Text-discrete e.0.off_chain_ticker prices ≢ none)
          results
  unfolding filter_prices
  filter_prices-IsFresh [] old prices e = tt
  filter_prices-IsFresh ((ticker, r) ∷ results) old prices e =
      elim (Bool-cases (is_stale a max_age (now ticker) r.timestamp)) [
        | inl stale ↦
            (λ f. absurd (ground arith), filter_prices-IsFresh results old prices (ground arith))
        | inr fresh ↦ elim (Option-cases r.value) [
          | inl n ↦ absurd (ground arith)
          | inr (price, v) ↦
              let next = put Text-discrete ticker.off_chain_ticker (some price) old in
              let step : filter_prices a now max_age results next ≡ some prices = ground arith in
              (
                λ f. filter_prices_keeps results next prices ticker.off_chain_ticker step (λ n.
                    absurd (
                      ground (
                        arith,
                        get-put Text-discrete ticker.off_chain_ticker ticker.off_chain_ticker
                            (some price) old,
                      ))),
                filter_prices-IsFresh results next prices step,
              )
        ]
      ]

  -- No fresh result has a nil price.
  abbrev pub AreSet : Results → Type 0
  AreSet results =
      All (λ (e : ProviderTicker × ResolvedResult (Option Float)). IsFresh e → e.1.value ≢ none)
        results

  -- Only the nil price of a fresh result panics.
  filter_prices_total :
      (results : Results) (old : Dict Text (Option Float))
      → AreSet results
      → (prices : Dict Text (Option Float)) × (filter_prices a now max_age results old
          ≡ some prices)
  unfolding filter_prices
  filter_prices_total [] old h = (old, refl)
  filter_prices_total ((ticker, r) ∷ results) old h =
      elim (Bool-cases (is_stale a max_age (now ticker) r.timestamp)) [
        | inl stale ↦
            let (prices, e) = filter_prices_total results old h.1 in (prices, ground arith)
        | inr fresh ↦ elim (Option-cases r.value) [
          | inl n ↦ absurd (h.0 fresh n)
          | inr (price, v) ↦
              let (prices, e) =
                filter_prices_total results
                  (put Text-discrete ticker.off_chain_ticker (some price) old) h.1 in
              (prices, ground arith)
        ]
      ]

  -- If no fresh result has a nil price, then the prices are passed on without a panic; every price that is
  -- passed on is a price of a fresh result, under its off-chain ticker, and every fresh result has a price
  -- passed on under its off-chain ticker.
  pub filter_prices_lem :
      (results : Results)
      → AreSet results
      → (prices : Dict Text (Option Float)) × (filter_prices a now max_age results [] ≡ some prices)
        × ((x : Text) (found : Option Float)
            → get Text-discrete x prices ≡ some found
            → (price : Float) × (found ≡ some price) × HasFresh x price results)
        × All
            (λ (e : ProviderTicker × ResolvedResult (Option Float)).
              IsFresh e → get Text-discrete e.0.off_chain_ticker prices ≢ none)
            results
  unfolding get
  filter_prices_lem results h =
      let (prices, e) = filter_prices_total results [] h in
      (
        prices,
        e,
        λ x found g. only_fresh x found (filter_prices-From results [] prices x found e g),
        filter_prices-IsFresh results [] prices e,
      )
    where
      only_fresh :
          (x : Text) (found : Option Float)
          → From x results none found
          → (price : Float) × (found ≡ some price) × HasFresh x price results
      only_fresh x none h = absurd (ground arith)
      only_fresh x (some price) (inl h) = (price, refl, h)
      only_fresh x (some price) (inr h) = absurd (ground arith)
