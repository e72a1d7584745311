-- ===== src/Abci/Votes.antt =====
-- abci/strategies/aggregator/vote_aggregator.go: the votes of a proposal, read with a strategy, and the
-- prices aggregated from them. The aggregate function is a parameter, and so is the address format of
-- the Cosmos SDK.
pub mod Extraction
pub mod Reading
pub mod Collected
pub mod Reported
pub mod Instances
use orynx.Prelude.{
  ℕ, List, [], ◌∷◌, some, Text, Text-discrete, Result, ok, err, length, ltb, if◌then◌else◌, ◌==◌,
}
use orynx.Prelude.Action.{Action, ◌>>=◌, ◌>>◌, pure, raise_if}
use orynx.Prelude.Dict.{Dict, put}
use orynx.Prelude.Int.{ℤ}
use orynx.CurrencyPair.{CurrencyPair, CurrencyPair-discrete}
use orynx.Median.{Prices}
use orynx.Aggregator.{
  DataAggregator, AggregatorError, set_provider_data, reset_provider_data,
  aggregate_data_from_context, get_data_by_provider, get_aggregated_data,
}
use orynx.Abci.{Context, OracleVoteExtension, maximum_price_size}
use orynx.Abci.Strategies.{CurrencyPairStrategy, StrategyError, price_bytes_too_long}
pub use Extraction.{Vote}

-- `map[CurrencyPair]*big.Int` of all validators, with the function that aggregates it.
abbrev pub PriceAggregator : Type 0
PriceAggregator = DataAggregator Context Text Prices

-- `DefaultVoteAggregator`: the price aggregator, and the caches of the strategy.
pub record VoteAggregator (Cache : Type 0) : Type 0 where
  pub price_aggregator : PriceAggregator
  pub cache : Cache

module _ {W : Type 0} (s : CurrencyPairStrategy W) where
  abbrev pub Voting : Type 0 → Type 0
  Voting = Action (VoteAggregator s.Cache) AggregatorError

  -- One price of a vote extension: the pair and the decoded price. Each error is logged, and the price
  -- left out.
  abbrev pub read_price : Context → W → ℕ → Text → Action s.Cache StrategyError (CurrencyPair × ℤ)
  read_price ctx w id bz = do
    raise_if (ltb maximum_price_size (length bz)) price_bytes_too_long
    cp ← s.from_id ctx id w
    price ← s.get_decoded_price ctx cp bz w
    pure (cp, price)

  abbrev pub store_price : Prices → Result StrategyError (CurrencyPair × ℤ) → Prices
  store_price prices (ok (cp, price)) = put CurrencyPair-discrete cp (some price) prices
  store_price prices (err e) = prices

  -- The loop of `addVoteToAggregator`.
  abbrev pub read_prices : Context → W → Dict ℕ Text → Prices → s.Cache → Prices × s.Cache
  read_prices ctx w [] prices c = (prices, c)
  read_prices ctx w ((id, bz) ∷ ps) prices c =
      let (r, c') = read_price ctx w id bz c in read_prices ctx w ps (store_price prices r) c'

  -- A method of the price aggregator.
  abbrev on_prices : {A : Type 0} → Action PriceAggregator AggregatorError A → Voting A
  on_prices m v = let (r, p) = m v.price_aggregator in (r, record v { price_aggregator = p })

  module _ (address_string : Text → Text) where
    -- `addVoteToAggregator`, which has no error.
    unfoldable pub add_vote_to_aggregator :
        Context → W → Text → OracleVoteExtension → Voting (Unit {0})
    add_vote_to_aggregator ctx w address data_of v =
        if length data_of.prices == 0
        then (ok tt, v)
        else (let (prices, c) = read_prices ctx w data_of.prices [] v.cache in
            on_prices (set_provider_data Text-discrete address prices) (record v { cache = c }))

    -- The loop of `AggregateOracleVotes`.
    abbrev pub add_votes : Context → W → List Vote → Voting (Unit {0})
    add_votes ctx w [] = pure tt
    add_votes ctx w (vote ∷ votes) = do
      add_vote_to_aggregator ctx w (address_string vote.cons_address) vote.oracle_vote_extension
      add_votes ctx w votes

    unfoldable pub aggregate_oracle_votes : Context → W → List Vote → Voting Prices
    unfolding aggregate_data_from_context
    aggregate_oracle_votes ctx w votes = do
      on_prices reset_provider_data
      add_votes ctx w votes
      on_prices (aggregate_data_from_context ctx)
      on_prices get_aggregated_data

    -- `GetPriceForValidator`; the zero value is the nil map.
    abbrev pub get_price_for_validator : Text → Voting Prices
    get_price_for_validator validator =
        on_prices (get_data_by_provider Text-discrete [] (address_string validator))
