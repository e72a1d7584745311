-- ===== src/Abci/Votes/Collected.antt =====
-- `AggregateOracleVotes` (abci/strategies/aggregator/vote_aggregator.go): what it hands to the aggregate
-- function, and what it keeps of each validator.
use orynx.Prelude.{
  ◌≡◌, refl, List, [], ◌∷◌, Option, none, some, Text, Text-discrete, Result, ok, err, arith, inl,
  inr, Option-cases,
}
use orynx.Prelude.Dict.{Dict, get}
use orynx.Median.{Prices}
use orynx.Aggregator.{
  AggregateFn, aggregate_data_from_context, aggregate_fn_panic, value_or, AggregatorError,
}
use orynx.Abci.{Context}
use orynx.Abci.Strategies.{CurrencyPairStrategy}
use orynx.Abci.Votes.{
  Vote, VoteAggregator, PriceAggregator, add_vote_to_aggregator, add_votes, aggregate_oracle_votes,
  get_price_for_validator,
}
use orynx.Abci.Votes.Reading.{Meaning, reported_vote, reports, read_prices_lem}

-- The answer of `AggregateOracleVotes` for a result of the aggregate function.
abbrev pub aggregated : Option Prices → Result AggregatorError Prices
aggregated none = err aggregate_fn_panic
aggregated (some prices) = ok prices

module _ {W : Type 0} {s : CurrencyPairStrategy W} {ctx : Context} {w : W}
    (m : Meaning s ctx w) where
  abbrev with_reports : Dict Text Prices → PriceAggregator → PriceAggregator
  with_reports r p = record p { provider_data = r }

  add_vote_lem :
      (address_string : Text → Text) (vote : Vote) (v : VoteAggregator s.Cache)
      → m.IsGood v.cache
      → let (r, v') =
          add_vote_to_aggregator s address_string ctx w
            (address_string vote.cons_address)
            vote.oracle_vote_extension
            v in
        (r ≡ ok tt)
        × m.IsGood v'.cache
        × (v'.price_aggregator
            ≡ with_reports
                (reported_vote m
                  (address_string vote.cons_address)
                  vote.oracle_vote_extension.prices
                  v.price_aggregator.provider_data)
                v.price_aggregator)
  unfolding add_vote_to_aggregator
  add_vote_lem address_string vote v g =
      let ps = vote.oracle_vote_extension.prices in
      let (same, g') = read_prices_lem m ps [] v.cache g in ground (arith, same, g', g)

  add_votes_lem :
      (address_string : Text → Text) (votes : List Vote) (v : VoteAggregator s.Cache)
      → m.IsGood v.cache
      → let (r, v') = add_votes s address_string ctx w votes v in
        (r ≡ ok tt)
        × m.IsGood v'.cache
        × (v'.price_aggregator
            ≡ with_reports
                (reports m address_string votes v.price_aggregator.provider_data)
                v.price_aggregator)
  add_votes_lem address_string [] v g = (refl, g, refl)
  add_votes_lem address_string (vote ∷ votes) v g =
      let v1 =
        (add_vote_to_aggregator s address_string ctx w (address_string vote.cons_address)
          vote.oracle_vote_extension v).1 in
      let (r, g1, p) = add_vote_lem address_string vote v g in
      let (r', g2, p') = add_votes_lem address_string votes v1 g1 in
      ground (arith, r, p, r', g2, p')

  -- The aggregation of a block depends on its votes alone: whatever prices the aggregator held before,
  -- if its aggregate function is set and its cache is good, `AggregateOracleVotes` applies the function
  -- to the prices that the votes report, returns its result, and keeps for each validator the prices
  -- of its vote.
  pub aggregate_oracle_votes_lem :
      (address_string : Text → Text) (votes : List Vote) (v : VoteAggregator s.Cache)
      {fn : Context → AggregateFn Text Prices}
      → v.price_aggregator.aggregate_fn_from_context ≡ some fn
      → m.IsGood v.cache
      → let (r, v') = aggregate_oracle_votes s address_string ctx w votes v in
        let said = reports m address_string votes [] in
        (r ≡ aggregated (fn ctx said))
        × m.IsGood v'.cache
        × (v'.price_aggregator.aggregate_fn_from_context ≡ some fn)
        × ((address : Text)
            → (get_price_for_validator s address_string address v').0
              ≡ ok (value_or [] (get Text-discrete (address_string address) said)))
  unfolding aggregate_oracle_votes aggregate_data_from_context
  aggregate_oracle_votes_lem address_string votes v {fn} f g =
      let v1 : VoteAggregator s.Cache = record v {
        price_aggregator = with_reports [] v.price_aggregator;
      } in
      let (r, g1, p) = add_votes_lem address_string votes v1 g in
      let v2 = (add_votes s address_string ctx w votes v1).1 in
      elim (Option-cases (fn ctx (reports m address_string votes []))) [
        | inl q ↦ (ground arith, ground (arith, g1), ground arith, λ address. ground arith)
        | inr (prices, q) ↦
            (ground arith, ground (arith, g1), ground arith, λ address. ground arith)
      ]
