-- ===== src/Abci/Strategies.antt =====
-- abci/strategies/currencypair/: how a pair and its price are written in a vote extension. A strategy
-- keeps caches that are dropped when the block height changes; it reads the oracle module's state. The
-- `big.Int` codec of math/big and SHA-256 are parameters.
pub mod Lookups
pub mod Prices
pub mod Hash
pub mod BigInt
mod Reader
use orynx.Prelude.{
  ℕ, List, [], ◌∷◌, Option, none, some, Text, Result, ok, err, ◌==◌, if◌then◌else◌, ℕ_discrete,
}
use orynx.Prelude.Action.{Action, ◌>>=◌, ◌>>◌, pure, gets, modify, raise_if, or_raise, lift}
use orynx.Prelude.Dict.{Dict, get, put}
use orynx.Prelude.Int.{ℤ, ◌+ℤ◌, ◌-ℤ◌}
use orynx.CurrencyPair.{CurrencyPair, CurrencyPair-discrete, to_string}
use orynx.Abci.{Context}
pub use Reader.{
  OracleReader, keeper_reader, StrategyError, Gob, is_negative, counts_removed, state_price,
  unknown_pair, unknown_id, negative_price, gob_error, hash_error, keeper_failure,
  price_bytes_too_long,
}
unfoldable pub use Reader.{default_max_num_cp, default_encoded_price, default_decoded_price}

-- The interface `CurrencyPairStrategy`, over a state of caches.
pub record CurrencyPairStrategy (W : Type 0) : Type 1 where
  pub Cache : Type 0
  pub id : Context → CurrencyPair → W → Action Cache StrategyError ℕ
  pub from_id : Context → ℕ → W → Action Cache StrategyError CurrencyPair
  pub get_encoded_price : Context → CurrencyPair → ℤ → W → Action Cache StrategyError Text
  pub get_decoded_price : Context → CurrencyPair → Text → W → Action Cache StrategyError ℤ
  pub get_max_num_cp : Context → W → Result StrategyError ℕ

-- The fields of `DefaultCurrencyPairStrategy` that change.
pub record IdCache : Type 0 where
  pub id_cache : Dict ℕ CurrencyPair
  pub previous_height : ℕ

-- The fields that `DeltaCurrencyPairStrategy` adds.
pub record DeltaCache : Type 0 where
  pub ids : IdCache
  pub price_cache : Dict CurrencyPair ℤ
  pub price_height : ℕ

-- The reset at the start of `ID` and `FromID`.
unfoldable pub reset_ids : Context → IdCache → IdCache
reset_ids ctx c =
    if ctx.block_height == c.previous_height
    then c
    else record { id_cache = []; previous_height = ctx.block_height }

-- The reset at the start of `getOnChainPrice`.
unfoldable pub reset_prices : Context → DeltaCache → DeltaCache
reset_prices ctx c =
    if ctx.block_height == c.price_height
    then c
    else record c { price_cache = []; price_height = ctx.block_height }

abbrev pub cache_id : ℕ → CurrencyPair → IdCache → IdCache
cache_id id cp c = record c { id_cache = put ℕ_discrete id cp c.id_cache }

abbrev pub cache_price : CurrencyPair → ℤ → DeltaCache → DeltaCache
cache_price cp p c = record c { price_cache = put CurrencyPair-discrete cp p c.price_cache }

module _ {W : Type 0} (k : OracleReader W) where
  abbrev pub Caching : Type 0 → Type 0
  Caching = Action IdCache StrategyError

  -- `(*DefaultCurrencyPairStrategy).ID`
  unfoldable pub default_id : Context → CurrencyPair → W → Caching ℕ
  default_id ctx cp w = do
    modify (reset_ids ctx)
    id ← or_raise (k.id_of cp w) unknown_pair
    modify (cache_id id cp)
    pure id

  -- The lookup of `FromID` that the cache does not answer.
  abbrev pub fetch_pair : ℕ → W → Option CurrencyPair → Caching CurrencyPair
  fetch_pair id w (some cp) = pure cp
  fetch_pair id w none = do
    cp ← or_raise (k.pair_from_id id w) unknown_id
    modify (cache_id id cp)
    pure cp

  -- `(*DefaultCurrencyPairStrategy).FromID`
  unfoldable pub default_from_id : Context → ℕ → W → Caching CurrencyPair
  default_from_id ctx id w = do
    modify (reset_ids ctx)
    fetch_pair id w (← gets (λ c. get ℕ_discrete id c.id_cache))

  abbrev pub fetch_price : CurrencyPair → W → Option ℤ → Action DeltaCache StrategyError ℤ
  fetch_price cp w (some price) = pure price
  fetch_price cp w none = do
    price ← lift (state_price (k.price_of cp w))
    modify (cache_price cp price)
    pure price

  -- `getOnChainPrice`
  unfoldable pub get_on_chain_price : Context → CurrencyPair → W → Action DeltaCache StrategyError ℤ
  get_on_chain_price ctx cp w = do
    modify (reset_prices ctx)
    fetch_price cp w (← gets (λ c. get CurrencyPair-discrete cp c.price_cache))

  -- A method of the embedded `DefaultCurrencyPairStrategy`.
  abbrev pub on_ids : {A : Type 0} → Caching A → Action DeltaCache StrategyError A
  on_ids m c = let (r, ids) = m c.ids in (r, record c { ids = ids })

  module _ (gob : Gob) where
    -- `(*DeltaCurrencyPairStrategy).GetEncodedPrice`
    unfoldable pub delta_encoded_price :
        Context → CurrencyPair → ℤ → W → Action DeltaCache StrategyError Text
    delta_encoded_price ctx cp price w = do
      raise_if (is_negative price) negative_price
      on_chain ← get_on_chain_price ctx cp w
      lift (gob.gob_encode (price -ℤ on_chain))

    -- `(*DeltaCurrencyPairStrategy).GetDecodedPrice`
    unfoldable pub delta_decoded_price :
        Context → CurrencyPair → Text → W → Action DeltaCache StrategyError ℤ
    delta_decoded_price ctx cp bz w = do
      on_chain ← get_on_chain_price ctx cp w
      delta ← lift (gob.gob_decode bz)
      raise_if (is_negative (delta +ℤ on_chain)) negative_price
      pure (delta +ℤ on_chain)

    -- `DefaultCurrencyPairStrategy`
    abbrev pub default_strategy : CurrencyPairStrategy W
    default_strategy = record {
      Cache = IdCache;
      id = default_id;
      from_id = default_from_id;
      get_encoded_price = λ ctx cp price w. lift (default_encoded_price gob price);
      get_decoded_price = λ ctx cp bz w. lift (default_decoded_price gob bz);
      get_max_num_cp = default_max_num_cp k;
    }

    -- `DeltaCurrencyPairStrategy`
    abbrev pub delta_strategy : CurrencyPairStrategy W
    delta_strategy = record {
      Cache = DeltaCache;
      id = λ ctx cp w. on_ids (default_id ctx cp w);
      from_id = λ ctx id w. on_ids (default_from_id ctx id w);
      get_encoded_price = delta_encoded_price;
      get_decoded_price = delta_decoded_price;
      get_max_num_cp = default_max_num_cp k;
    }

  module _ (hash_id : Text → Result StrategyError ℕ) where
    -- `(*HashCurrencyPairStrategy).ID`; the parameter is `CurrencyPairToHashID`.
    unfoldable pub hash_strategy_id : Context → CurrencyPair → W → Caching ℕ
    hash_strategy_id ctx cp w = do
      modify (reset_ids ctx)
      found ← or_raise (k.id_of cp w) unknown_pair
      hash ← lift (hash_id (to_string cp))
      modify (cache_id hash cp)
      pure hash

    -- The loop of `FromID` that fills the cache.
    abbrev pub fill_cache : List CurrencyPair → Caching (Unit {0})
    fill_cache [] = pure tt
    fill_cache (cp ∷ cps) = do
      hash ← lift (hash_id (to_string cp))
      modify (cache_id hash cp)
      fill_cache cps

    abbrev pub fetch_hashed : ℕ → W → Option CurrencyPair → Caching CurrencyPair
    fetch_hashed id w (some cp) = pure cp
    fetch_hashed id w none = do
      fill_cache (k.all_pairs w)
      or_raise (← gets (λ c. get ℕ_discrete id c.id_cache)) unknown_id

    -- `(*HashCurrencyPairStrategy).FromID`
    unfoldable pub hash_from_id : Context → ℕ → W → Caching CurrencyPair
    hash_from_id ctx id w = do
      modify (reset_ids ctx)
      fetch_hashed id w (← gets (λ c. get ℕ_discrete id c.id_cache))
