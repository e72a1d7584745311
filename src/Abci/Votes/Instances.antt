-- ===== src/Abci/Votes/Instances.antt =====
-- The strategies of abci/strategies/currencypair whose caches only remember: the default strategy and
-- the one with price deltas.
use orynx.Prelude.{
  ℕ, ◌≡◌, ap, ◌∙◌, none, some, Text, Result, ok, err, arith, inl, inr, Option-cases, Result-cases,
  ℕ_discrete, Option, if◌then◌else◌,
}
use orynx.Prelude.Dict.{get}
use orynx.Prelude.Int.{ℤ, ◌+ℤ◌}
use orynx.CurrencyPair.{CurrencyPair, CurrencyPair-discrete}
use orynx.Abci.{Context}
use orynx.Abci.Strategies.{
  OracleReader, StrategyError, Gob, IdCache, DeltaCache, default_strategy, delta_strategy,
  reset_ids, default_from_id, default_decoded_price, delta_decoded_price, state_price,
  get_on_chain_price, reset_prices, is_negative,
}
use orynx.Abci.Strategies.Lookups.{IdsFit, cache_id-IdsFit}
use orynx.Abci.Strategies.Prices.{IsFresh, get_on_chain_price_lem}
use orynx.Abci.Votes.Reading.{Meaning, value}

module _ {W : Type 0} (k : OracleReader W) (gob : Gob) (ctx : Context) (w : W) where
  -- What the cache holds for the height of the context fits the state.
  abbrev pub AreIdsFresh : IdCache → Type 0
  AreIdsFresh c = IdsFit k w (reset_ids ctx c)

  pub default_from_id_lem :
      (id : ℕ) (c : IdCache)
      → AreIdsFresh c
      → (value (default_from_id k ctx id w c).0 ≡ k.pair_from_id id w)
        × AreIdsFresh (default_from_id k ctx id w c).1
  unfolding default_from_id reset_ids
  default_from_id_lem id c f =
      let c1 = reset_ids ctx c in
      elim (Option-cases (get ℕ_discrete id c1.id_cache)) [
        | inr (cp, e) ↦ (ground (arith, f id cp e), λ j cp' q. ground (arith, f j cp'))
        | inl e ↦ elim (Option-cases (k.pair_from_id id w)) [
          | inl d ↦ (ground arith, λ j cp' q. ground (arith, f j cp'))
          | inr (cp, d) ↦
              (ground arith, λ j cp' q. ground (arith, cache_id-IdsFit k id cp w c1 d f j cp'))
        ]
      ]

  pub default_decoded_price_lem :
      (cp : CurrencyPair) (bz : Text) (c : IdCache)
      → AreIdsFresh c
      → let (r, c') = (default_strategy k gob).get_decoded_price ctx cp bz w c in
        (value r ≡ value (default_decoded_price gob bz)) × AreIdsFresh c'
  default_decoded_price_lem cp bz c g = elim (Result-cases (default_decoded_price gob bz)) [
    | inl (p, e) ↦ ground (arith, g)
    | inr (x, e) ↦ ground (arith, g)
  ]

  unfoldable pub default_meaning : Meaning (default_strategy k gob) ctx w
  default_meaning = record {
    IsGood = AreIdsFresh;
    pair_at = λ id. k.pair_from_id id w;
    price_at = λ cp bz. value (default_decoded_price gob bz);
    from_id_means = default_from_id_lem;
    decode_means = default_decoded_price_lem;
  }

  -- The price of a delta.
  abbrev pub price_of_delta : Result StrategyError ℤ → Result StrategyError ℤ → Option ℤ
  price_of_delta (ok on_chain) (ok delta) =
      if is_negative (delta +ℤ on_chain) then none else some (delta +ℤ on_chain)
  price_of_delta (ok on_chain) (err e) = none
  price_of_delta (err e) d = none

  abbrev pub AreFresh : DeltaCache → Type 0
  AreFresh c = AreIdsFresh c.ids × IsFresh k ctx w c

  get_on_chain_price-ids :
      (cp : CurrencyPair) (c : DeltaCache) → (get_on_chain_price k ctx cp w c).1.ids ≡ c.ids
  unfolding get_on_chain_price reset_prices
  get_on_chain_price-ids cp c =
      elim (Option-cases (get CurrencyPair-discrete cp (reset_prices ctx c).price_cache)) [
        | inr (p, e) ↦ ground arith
        | inl e ↦ elim (Result-cases (state_price (k.price_of cp w))) [
          | inr (x, d) ↦ ground arith
          | inl (p, d) ↦ ground arith
        ]
      ]

  delta_decoded_price-on_chain :
      (cp : CurrencyPair) (bz : Text) (c : DeltaCache)
      → let (r, c') = get_on_chain_price k ctx cp w c in
        let (decoded, c'') = delta_decoded_price k gob ctx cp bz w c in
        (value decoded ≡ price_of_delta r (gob.gob_decode bz)) × (c'' ≡ c')
  unfolding delta_decoded_price
  delta_decoded_price-on_chain cp bz c = elim (Result-cases (get_on_chain_price k ctx cp w c).0) [
    | inr (x, e) ↦ ground arith
    | inl (p, e) ↦ elim (Result-cases (gob.gob_decode bz)) [
      | inr (x, d) ↦ ground arith
      | inl (q, d) ↦ ground arith
    ]
  ]

  pub delta_decoded_price_lem :
      (cp : CurrencyPair) (bz : Text) (c : DeltaCache)
      → AreFresh c
      → (value (delta_decoded_price k gob ctx cp bz w c).0
          ≡ price_of_delta (state_price (k.price_of cp w)) (gob.gob_decode bz))
        × AreFresh (delta_decoded_price k gob ctx cp bz w c).1
  delta_decoded_price_lem cp bz c f =
      let (same, kept) = delta_decoded_price-on_chain cp bz c in
      let (price, fresh) = get_on_chain_price_lem k ctx cp w c f.1 in
      (
        same ∙ ap (λ r. price_of_delta r (gob.gob_decode bz)) price,
        (rw kept (rw (get_on_chain_price-ids cp c) f.0), rw kept fresh),
      )

  pub set_ids-IsFresh :
      (ids : IdCache) (c : DeltaCache)
      → IsFresh k ctx w c
      → IsFresh k ctx w (record c { ids = ids })
  unfolding reset_prices
  set_ids-IsFresh ids c f cp p q = f cp p (ground arith)

  unfoldable pub delta_meaning : Meaning (delta_strategy k gob) ctx w
  delta_meaning = record {
    IsGood = AreFresh;
    pair_at = λ id. k.pair_from_id id w;
    price_at = λ cp bz. price_of_delta (state_price (k.price_of cp w)) (gob.gob_decode bz);
    from_id_means = λ id c f.
        let (same, f') = default_from_id_lem id c.ids f.0 in
        (same, (f', set_ids-IsFresh (default_from_id k ctx id w c.ids).1 c f.1));
    decode_means = delta_decoded_price_lem;
  }
