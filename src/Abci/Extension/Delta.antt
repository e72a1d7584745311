-- ===== src/Abci/Extension/Delta.antt =====
-- The strategy with price deltas as a writer of vote extensions (abci/strategies/currencypair/delta.go).
use orynx.Prelude.{
  ◌≡◌, ap, ◌∙◌, Option, none, Text, Result, ok, err, arith, inl, inr, Result-cases, false,
  if◌then◌else◌, Bool-cases,
}
use orynx.Prelude.Int.{ℤ, ◌-ℤ◌}
use orynx.CurrencyPair.{CurrencyPair}
use orynx.Abci.{Context}
use orynx.Abci.Strategies.{
  OracleReader, StrategyError, Gob, DeltaCache, delta_strategy, delta_encoded_price, default_id,
  state_price, get_on_chain_price, is_negative,
}
use orynx.Abci.Strategies.Prices.{IsFresh, get_on_chain_price_lem}
use orynx.Abci.Votes.Instances.{set_ids-IsFresh}
use orynx.Abci.Votes.Reading.{value}
use orynx.Abci.Extension.Written.{WriteMeaning, default_id_lem}

module _ {W : Type 0} (k : OracleReader W) (gob : Gob) (ctx : Context) (w : W) where
  -- The bytes of a delta.
  abbrev pub encoded_delta : ℤ → Result StrategyError ℤ → Option Text
  encoded_delta price (ok on_chain) = value (gob.gob_encode (price -ℤ on_chain))
  encoded_delta price (err e) = none

  delta_encoded_price-on_chain :
      (cp : CurrencyPair) (price : ℤ) (c : DeltaCache)
      → is_negative price ≡ false
      → let (r, c') = get_on_chain_price k ctx cp w c in
        let (encoded, c'') = delta_encoded_price k gob ctx cp price w c in
        (value encoded ≡ encoded_delta price r) × (c'' ≡ c')
  unfolding delta_encoded_price
  delta_encoded_price-on_chain cp price c n =
      elim (Result-cases (get_on_chain_price k ctx cp w c).0) [
        | inr (x, e) ↦ ground arith
        | inl (p, e) ↦ elim (Result-cases (gob.gob_encode (price -ℤ p))) [
          | inr (x, d) ↦ ground arith
          | inl (bz, d) ↦ ground arith
        ]
      ]

  pub delta_encoded_price_lem :
      (cp : CurrencyPair) (price : ℤ) (c : DeltaCache)
      → IsFresh k ctx w c
      → (value (delta_encoded_price k gob ctx cp price w c).0 ≡ (
          if is_negative price then none else encoded_delta price (state_price (k.price_of cp w))))
        × IsFresh k ctx w (delta_encoded_price k gob ctx cp price w c).1
  unfolding delta_encoded_price
  delta_encoded_price_lem cp price c f = elim (Bool-cases (is_negative price)) [
    | inl n ↦ ground (arith, f)
    | inr n ↦
        let (same, kept) = delta_encoded_price-on_chain cp price c n in
        let (held, fresh) = get_on_chain_price_lem k ctx cp w c f in
        let there = same ∙ ap (encoded_delta price) held in
        (ground (arith, there, n), rw kept fresh)
  ]

  -- The delta strategy writes ids and deltas as without its cache, if what the cache holds for the height
  -- fits the state.
  unfoldable pub delta_writes : WriteMeaning (delta_strategy k gob) ctx w
  delta_writes = record {
    IsGood = IsFresh k ctx w;
    id_at = λ cp. k.id_of cp w;
    encoded_at = λ cp price.
        if is_negative price then none else encoded_delta price (state_price (k.price_of cp w));
    id_means = λ cp c f. (
      default_id_lem k ctx cp w c.ids,
      set_ids-IsFresh k gob ctx w (default_id k ctx cp w c.ids).1 c f,
    );
    encode_means = delta_encoded_price_lem;
  }
