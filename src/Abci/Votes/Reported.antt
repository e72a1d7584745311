-- ===== src/Abci/Votes/Reported.antt =====
-- The prices that one vote extension reports, as a map
-- (abci/strategies/aggregator/vote_aggregator.go, `addVoteToAggregator`).
use orynx.Prelude.{
  ℕ, ◌≡◌, ◌⊎◌, ◌↔◌, [], ◌∷◌, Option, none, some, Text, arith, inl, inr, Option-cases, ℕ_discrete,
}
use mathlib.Core.Path.{subst}
use orynx.Prelude.Dict.{Dict, get, get-put, IsMap}
use orynx.Prelude.Int.{ℤ}
use orynx.CurrencyPair.{CurrencyPair, CurrencyPair-discrete}
use orynx.Median.{Prices}
use orynx.Abci.{Context}
use orynx.Abci.Strategies.{CurrencyPairStrategy}
use orynx.Abci.Votes.{read_prices}
use orynx.Abci.Votes.Reading.{
  Meaning, reported_price, reported_prices, store_reported, read_prices_lem,
}

module _ {W : Type 0} {s : CurrencyPairStrategy W} {ctx : Context} {w : W}
    (m : Meaning s ctx w) where
  -- A price of the vote extension that is read as this one.
  abbrev pub IsReported : CurrencyPair → ℤ → Dict ℕ Text → Type 0
  IsReported cp p ps =
      (id : ℕ) × (bz : Text) × (get ℕ_discrete id ps ≡ some bz)
      × (reported_price m id bz ≡ some (cp, p))

  AreSound : CurrencyPair → Dict ℕ Text → Prices → Option ℤ → Type 0
  AreSound cp ps prices o =
      (get CurrencyPair-discrete cp prices ≡ some o) ⊎ (p : ℤ) × IsReported cp p ps × (o ≡ some p)

  reported_prices-AreSound :
      (ps : Dict ℕ Text) (prices : Prices) (cp : CurrencyPair) {o : Option ℤ}
      → IsMap ℕ_discrete ps
      → get CurrencyPair-discrete cp (reported_prices m ps prices) ≡ some o
      → AreSound cp ps prices o
  unfolding get AreSound
  reported_prices-AreSound [] prices cp {o} i e = inl e
  reported_prices-AreSound ((id, bz) ∷ ps) prices cp {o} i e =
      elim (reported_prices-AreSound ps (store_reported m prices (reported_price m id bz)) cp
        {o = o} i.1 e) [
          | inr (p, (id', bz', g, r), q) ↦ inr (p, (id', bz', ground (arith, i.0), r), q)
          | inl g ↦ elim (Option-cases (reported_price m id bz)) [
            | inl n ↦ inl (ground arith)
            | inr ((cp', p), r) ↦ elim (CurrencyPair-discrete cp cp') [
              | yes same ↦ inr (
                p,
                (id, bz, ground arith, ground arith),
                ground (arith, get-put CurrencyPair-discrete cp cp' (some p) prices),
              )
              | no other ↦
                  inl (ground (arith, get-put CurrencyPair-discrete cp cp' (some p) prices))
            ]
          ]
        ]

  abbrev HasPrice : CurrencyPair → Prices → Type 0
  HasPrice cp prices = (o : Option ℤ) × (get CurrencyPair-discrete cp prices ≡ some o)

  store_reported-HasPrice :
      (cp : CurrencyPair) (prices : Prices) (r : Option (CurrencyPair × ℤ))
      → HasPrice cp prices
      → HasPrice cp (store_reported m prices r)
  store_reported-HasPrice cp prices none h = h
  store_reported-HasPrice cp prices (some (cp', p)) (o, e) = elim (CurrencyPair-discrete cp cp') [
    | yes same ↦ (some p, ground (arith, get-put CurrencyPair-discrete cp cp' (some p) prices))
    | no other ↦ (o, ground (arith, get-put CurrencyPair-discrete cp cp' (some p) prices))
  ]

  reported_prices-keeps :
      (ps : Dict ℕ Text) (prices : Prices) (cp : CurrencyPair)
      → HasPrice cp prices
      → HasPrice cp (reported_prices m ps prices)
  reported_prices-keeps [] prices cp h = h
  reported_prices-keeps ((id, bz) ∷ ps) prices cp h =
      reported_prices-keeps ps (store_reported m prices (reported_price m id bz)) cp
        (store_reported-HasPrice cp prices (reported_price m id bz) h)

  reported_prices-adds :
      (ps : Dict ℕ Text) (prices : Prices) (cp : CurrencyPair) {p : ℤ}
      → IsReported cp p ps
      → HasPrice cp (reported_prices m ps prices)
  unfolding get
  reported_prices-adds [] prices cp {p} (id, bz, g, r) = absurd (ground arith)
  reported_prices-adds ((j, b) ∷ ps) prices cp {p} (id, bz, g, r) = elim (ℕ_discrete id j) [
    | no n ↦
        reported_prices-adds ps (store_reported m prices (reported_price m j b)) cp {p = p}
          (id, bz, ground arith, r)
    | yes same ↦
        reported_prices-keeps ps (store_reported m prices (reported_price m j b)) cp
          (some p, ground (arith, get-put CurrencyPair-discrete cp cp (some p) prices))
  ]

  -- No two ids stand for the same pair.
  abbrev pub HasOneId : Type 0
  HasOneId = (i j : ℕ) (cp : CurrencyPair) → m.pair_at i ≡ some cp → m.pair_at j ≡ some cp → i ≡ j

  pub reported_pair :
      (id : ℕ) (bz : Text) {cp : CurrencyPair} {p : ℤ}
      → reported_price m id bz ≡ some (cp, p)
      → m.pair_at id ≡ some cp
  reported_pair id bz {cp} {p} e = elim (Option-cases (m.pair_at id)) [
    | inl n ↦ absurd (ground arith)
    | inr (cp', n) ↦ elim (Option-cases (m.price_at cp' bz)) [
      | inl d ↦ absurd (ground arith)
      | inr (p', d) ↦ ground arith
    ]
  ]

  pub reported_prices_iff :
      (ps : Dict ℕ Text) (cp : CurrencyPair) (p : ℤ)
      → HasOneId
      → IsMap ℕ_discrete ps
      → (get CurrencyPair-discrete cp (reported_prices m ps []) ≡ some (some p))
        ↔ IsReported cp p ps
  unfolding get AreSound
  reported_prices_iff ps cp p one i = (
    λ e. elim (reported_prices-AreSound ps [] cp {o = some p} i e) [
      | inl g ↦ absurd (ground arith)
      | inr (p', r, q) ↦ subst (λ x. IsReported cp x ps) (ground arith) r
    ],
    λ (id, bz, g, r).
        let (o, e) = reported_prices-adds ps [] cp {p = p} (id, bz, g, r) in
        elim (reported_prices-AreSound ps [] cp {o = o} i e) [
          | inl g' ↦ absurd (ground arith)
          | inr (p', (id', bz', g', r'), q) ↦
              let same = one id id' cp (reported_pair id bz r) (reported_pair id' bz' r') in
              ground (arith, e, same, g, g', r, r', q)
        ],
  )

  -- A vote counts with exactly the prices that can be read: from a good cache, if no two ids stand for
  -- the same pair, the loop over a vote extension stores a price for a pair exactly if some entry of the
  -- vote extension, of at most 33 bytes, has an id of that pair and bytes of that price.
  pub read_prices_iff :
      (ps : Dict ℕ Text) (cp : CurrencyPair) (p : ℤ) (c : s.Cache)
      → m.IsGood c
      → HasOneId
      → IsMap ℕ_discrete ps
      → (get CurrencyPair-discrete cp (read_prices s ctx w ps [] c).0 ≡ some (some p))
        ↔ IsReported cp p ps
  read_prices_iff ps cp p c g one i =
      rw (read_prices_lem m ps [] c g).0 (reported_prices_iff ps cp p one i)
