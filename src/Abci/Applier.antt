-- ===== src/Abci/Applier.antt =====
-- abci/strategies/aggregator/price_applier.go: the prices aggregated from the votes of a proposal are
-- written to the oracle module.
pub mod Writes
pub mod Effects
use orynx.Prelude.{
  ◌+◌, ◌^◌, Bool, ltb, List, [], ◌∷◌, Option, none, some, Text, if◌then◌else◌, ok, err,
}
use orynx.Prelude.Action.{Action, ◌>>=◌, ◌>>◌, pure, raise, lift, map_error, gets}
use orynx.Prelude.Dict.{get}
use orynx.Prelude.Int.{ℤ, pos_part, neg_part}
use orynx.CurrencyPair.{CurrencyPair, CurrencyPair-discrete}
use orynx.Median.{Prices}
use orynx.OracleKeeper.{PairStore, State, QuotePrice, KeeperError, set_price_for_currency_pair}
use orynx.OracleKeeper.Queries.{get_all_currency_pairs}
use orynx.Aggregator.{AggregatorError}
use orynx.Abci.{Context, Codec, ExtendedCommitInfo, OracleVoteExtension, AbciError}
use orynx.Abci.Strategies.{CurrencyPairStrategy, is_negative}
use orynx.Abci.Votes.{VoteAggregator, aggregate_oracle_votes, get_price_for_validator}
use orynx.Abci.Votes.Extraction.{get_oracle_votes}

-- `panicked` is a panic of the aggregation and `out_of_range` that of `math.NewIntFromBigInt`, which no code
-- recovers before the caller of the applier.
pub data ApplyError : Type 0 where
  bad_votes : AbciError → ApplyError
  panicked : AggregatorError → ApplyError
  write_failed : KeeperError → ApplyError
  out_of_range : ApplyError

-- `math.NewIntFromBigInt` of the Cosmos SDK takes numbers of at most 256 bits, and panics on others.
unfoldable pub is_int : ℤ → Bool
is_int x = ltb (pos_part x + neg_part x) (2 ^ 256)

module _ (c : PairStore) where
  -- What the applier changes: the vote aggregator and the state of the oracle module.
  pub record Applied (Cache : Type 0) : Type 0 where
    pub voter : VoteAggregator Cache
    pub chain : State c.Store

  abbrev pub quote_of : Context → ℤ → QuotePrice
  quote_of ctx price = record {
    price = price;
    block_timestamp = ctx.block_time;
    block_height = ctx.block_height;
  }

  -- A turn of the loop over the pairs.
  abbrev pub write_price :
      Context → CurrencyPair → Option (Option ℤ) → Action (State c.Store) ApplyError (Unit {0})
  write_price ctx cp none = pure tt
  write_price ctx cp (some none) = pure tt
  write_price ctx cp (some (some price)) =
      if is_negative price
      then pure tt
      else (if is_int price
          then map_error write_failed (set_price_for_currency_pair c cp (quote_of ctx price))
          else raise out_of_range)

  abbrev pub write_prices :
      Context → Prices → List CurrencyPair → Action (State c.Store) ApplyError (Unit {0})
  write_prices ctx prices [] = pure tt
  write_prices ctx prices (cp ∷ cps) = do
    write_price ctx cp (get CurrencyPair-discrete cp prices)
    write_prices ctx prices cps

-- `oraclePriceApplier`, its fields that stay the same.
pub record PriceApplier (c : PairStore) : Type 1 where
  pub strategy : CurrencyPairStrategy (State c.Store)
  pub address_string : Text → Text
  pub ve_codec : Codec OracleVoteExtension
  pub ext_commit_codec : Codec ExtendedCommitInfo

module _ (c : PairStore) (pa : PriceApplier c) where
  abbrev pub Applying : Type 0 → Type 0
  Applying = Action (Applied c pa.strategy.Cache) ApplyError

  abbrev on_voter :
      Action (VoteAggregator pa.strategy.Cache) AggregatorError Prices → Applying Prices
  on_voter m a = let (r, v) = m a.voter in map_error panicked (lift r) (record a { voter = v })

  abbrev on_chain : Action (State c.Store) ApplyError (Unit {0}) → Applying (Unit {0})
  on_chain m a = let (r, s) = m a.chain in (r, record a { chain = s })

  -- `ApplyPricesFromVoteExtensions`
  unfoldable pub apply_prices_from_vote_extensions : Context → List Text → Applying Prices
  apply_prices_from_vote_extensions ctx txs = do
    votes ← map_error bad_votes (lift (get_oracle_votes pa.ve_codec pa.ext_commit_codec txs))
    s ← gets (λ a. a.chain)
    prices ← on_voter (aggregate_oracle_votes pa.strategy pa.address_string ctx s votes)
    on_chain (write_prices c ctx prices (get_all_currency_pairs c s))
    pure prices

  -- `GetPricesForValidator`
  abbrev pub get_prices_for_validator : Text → Applying Prices
  get_prices_for_validator validator =
      on_voter (get_price_for_validator pa.strategy pa.address_string validator)
