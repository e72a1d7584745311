-- ===== src/Abci/Strategies/Prices.antt =====
-- The prices in a vote extension: what abci/strategies/currencypair/default.go and delta.go encode and
-- decode.
use orynx.Prelude.{
  ◌≡◌, some, Text, ok, err, arith, inl, inr, Option-cases, Result-cases, if◌then◌else◌,
}
use orynx.Prelude.Dict.{get, get-put}
use orynx.Prelude.Int.{ℤ, pos, negsuc, ◌+ℤ◌, ◌-ℤ◌, ◌≤ℤ◌, int_laws, eq_of_parts}
use orynx.CurrencyPair.{CurrencyPair, CurrencyPair-discrete}
use orynx.Abci.{Context}
use orynx.Abci.Strategies.{
  OracleReader, Gob, DeltaCache, is_negative, reset_prices, cache_price, state_price,
  get_on_chain_price, default_encoded_price, default_decoded_price, delta_encoded_price,
  delta_decoded_price, negative_price,
}

-- `GobDecode` undoes `GobEncode`.
abbrev pub IsGob : Gob → Type 0
IsGob gob = (n : ℤ) (bz : Text) → gob.gob_encode n ≡ ok bz → gob.gob_decode bz ≡ ok n

module _ (gob : Gob) where
  -- A price that the default strategy encodes is decoded to itself, and is not negative.
  pub default_decoded_price-default_encoded_price :
      (price : ℤ) {bz : Text}
      → IsGob gob
      → default_encoded_price gob price ≡ ok bz
      → (default_decoded_price gob bz ≡ ok price) × (pos 0 ≤ℤ price)
  unfolding default_encoded_price default_decoded_price
  default_decoded_price-default_encoded_price (pos n) {bz} g e = ground (arith, g (pos n) bz e)
  default_decoded_price-default_encoded_price (negsuc n) {bz} g e = absurd (ground arith)

sub_add : (a b : ℤ) → (a -ℤ b) +ℤ b ≡ a
sub_add a b = eq_of_parts ((a -ℤ b) +ℤ b) a (omega int_laws)

module _ {W : Type 0} (k : OracleReader W) where
  -- Every cached price is the one of the state.
  abbrev pub PricesFit : W → DeltaCache → Type 0
  PricesFit w c =
      (cp : CurrencyPair) (price : ℤ)
      → get CurrencyPair-discrete cp c.price_cache ≡ some price
      → state_price (k.price_of cp w) ≡ ok price

  -- What the cache holds for the height of the context fits the state.
  abbrev pub IsFresh : Context → W → DeltaCache → Type 0
  IsFresh ctx w c = PricesFit w (reset_prices ctx c)

  pub reset_prices_idempotent :
      (ctx : Context) (c : DeltaCache) → reset_prices ctx (reset_prices ctx c) ≡ reset_prices ctx c
  unfolding reset_prices
  reset_prices_idempotent ctx c = ground arith

  reset_prices-cache_price :
      (ctx : Context) (cp : CurrencyPair) (p : ℤ) (c : DeltaCache)
      → reset_prices ctx (cache_price cp p (reset_prices ctx c))
        ≡ cache_price cp p (reset_prices ctx c)
  unfolding reset_prices
  reset_prices-cache_price ctx cp p c = ground arith

  -- The on-chain price is the one of the state, whether or not it is cached, and stays so.
  pub get_on_chain_price_lem :
      (ctx : Context) (cp : CurrencyPair) (w : W) (c : DeltaCache)
      → IsFresh ctx w c
      → ((get_on_chain_price k ctx cp w c).0 ≡ state_price (k.price_of cp w))
        × IsFresh ctx w (get_on_chain_price k ctx cp w c).1
  unfolding get_on_chain_price
  get_on_chain_price_lem ctx cp w c f =
      let c1 = reset_prices ctx c in
      elim (Option-cases (get CurrencyPair-discrete cp c1.price_cache)) [
        | inr (p, e) ↦ (ground (arith, f cp p e), ground (arith, reset_prices_idempotent ctx c))
        | inl e ↦ elim (Result-cases (state_price (k.price_of cp w))) [
          | inr (x, d) ↦ (ground arith, ground (arith, reset_prices_idempotent ctx c))
          | inl (p, d) ↦ (
            ground arith,
            λ cp' p' q. ground (
              arith,
              reset_prices-cache_price ctx cp p c,
              get-put CurrencyPair-discrete cp' cp p c1.price_cache,
              f cp' p',
            ),
          )
        ]
      ]

  -- A price that was read is cached, whatever the state becomes.
  get_on_chain_price-cached :
      (ctx : Context) (cp : CurrencyPair) (w w' : W) (c : DeltaCache) {p : ℤ}
      → IsFresh ctx w c
      → state_price (k.price_of cp w) ≡ ok p
      → (get_on_chain_price k ctx cp w' (get_on_chain_price k ctx cp w c).1).0 ≡ ok p
  unfolding get_on_chain_price
  get_on_chain_price-cached ctx cp w w' c {p} f e =
      let c1 = reset_prices ctx c in
      elim (Option-cases (get CurrencyPair-discrete cp c1.price_cache)) [
        | inr (q, d) ↦ ground (arith, f cp q d, reset_prices_idempotent ctx c)
        | inl d ↦ ground (
          arith,
          reset_prices-cache_price ctx cp p c,
          get-put CurrencyPair-discrete cp cp p c1.price_cache,
        )
      ]

  module _ (gob : Gob) where
    -- If one validator encodes a price as a delta, its own cache being fresh, then every other one that
    -- sees the same state and whose cache is fresh too decodes it to the same price, which is not negative.
    pub delta_decoded_price-delta_encoded_price :
        (ctx ctx' : Context) (cp : CurrencyPair) (price : ℤ) (w : W) (c c' : DeltaCache) {bz : Text}
        → IsGob gob
        → IsFresh ctx w c
        → IsFresh ctx' w c'
        → (delta_encoded_price k gob ctx cp price w c).0 ≡ ok bz
        → ((delta_decoded_price k gob ctx' cp bz w c').0 ≡ ok price) × (pos 0 ≤ℤ price)
    unfolding delta_encoded_price delta_decoded_price
    delta_decoded_price-delta_encoded_price ctx ctx' cp price w c c' {bz} g f f' e =
        elim (Result-cases (state_price (k.price_of cp w))) [
          | inr (x, d) ↦ absurd (ground (arith, (get_on_chain_price_lem ctx cp w c f).0))
          | inl (q, d) ↦ ground (
            arith,
            (get_on_chain_price_lem ctx cp w c f).0,
            (get_on_chain_price_lem ctx' cp w c' f').0,
            g (price -ℤ q) bz,
            sub_add price q,
          )
        ]

    -- A price that is written while the old one is cached is not seen at that height: if the on-chain
    -- price of a pair was read at a height as `old`, then the state changed to `new`, and a price is
    -- encoded at the same height, then a validator that decodes it against the changed state gets a price
    -- that is off by `new` less `old`, or an error if that is negative.
    pub delta_decoded_price-stale :
        (ctx ctx' : Context) (cp : CurrencyPair) (price old new : ℤ) (w w' : W) (c c' : DeltaCache)
        {bz : Text}
        → IsGob gob
        → IsFresh ctx w c
        → IsFresh ctx' w' c'
        → state_price (k.price_of cp w) ≡ ok old
        → state_price (k.price_of cp w') ≡ ok new
        → (delta_encoded_price k gob ctx cp price w' (get_on_chain_price k ctx cp w c).1).0 ≡ ok bz
        → (delta_decoded_price k gob ctx' cp bz w' c').0 ≡ (
            if is_negative ((price -ℤ old) +ℤ new)
            then err negative_price
            else ok ((price -ℤ old) +ℤ new))
    unfolding delta_encoded_price delta_decoded_price
    delta_decoded_price-stale ctx ctx' cp price old new w w' c c' {bz} g f f' o n e = ground (
      arith,
      get_on_chain_price-cached ctx cp w w' c f o,
      (get_on_chain_price_lem ctx' cp w' c' f').0,
      g (price -ℤ old) bz,
    )
