-- ===== src/Abci/PreBlock/Medians.antt =====
-- The pre-blocker (abci/preblock/oracle/preblock.go) with the stake-weighted median
-- (pkg/math/voteweighted) as its aggregate function: from the votes of a block to the state.
use mathlib.Core.Path.{subst}
use orynx.Prelude.{
  ℕ, ◌≡◌, sym, ap, ◌∙◌, List, [], All, All-mono, none, some, Text, ok, err, arith, true, false,
}
use orynx.Prelude.Dict.{Dict}
use orynx.CurrencyPair.{CurrencyPair, to_string}
use orynx.Median.{MedianEnv, median, Prices}
use orynx.Median.Collect.{for_pair, summary}
use orynx.Median.Collect as Collect
use orynx.Median.Quorum.{quorum_price, NoPanic, median-quorum_price}
use orynx.OracleKeeper.{PairStore, CurrencyPairState, State}
use orynx.OracleKeeper.Invariant.{Inv}
use orynx.OracleKeeper.Lookup.{HasReadableKeys}
use orynx.OracleKeeper.Queries.{get_all_currency_pairs}
use orynx.Abci.{Context, AbciError, vote_extensions_enabled}
use orynx.Abci.Votes.{Vote}
use orynx.Abci.Votes.Extraction.{get_oracle_votes}
use orynx.Abci.Votes.Reading.{Meaning, reports}
use orynx.Abci.Applier.{Applied, PriceApplier, bad_votes}
use orynx.Abci.Applier.Writes.{entry_after, IsStorable}
use orynx.Abci.Applier.Effects.{apply_prices-Priced, apply_prices-bad_votes}
use orynx.Abci.PreBlock.{pre_blocker, nil_finalize_request, apply_failure}

module _ (c : PairStore) (pa : PriceApplier c) (ctx : Context) (txs : List Text)
    (a : Applied c pa.strategy.Cache) where
  -- The state after a block: the entry of each tracked pair has the median of what the votes report for
  -- the pair, if its weight reaches the threshold.
  pub record HasMedians (env : MedianEnv) (total : ℕ) (said : Dict Text Prices)
      (s s' : State c.Store) : Type 0 where
    pub invariant : Inv c s'
    pub tracked :
        (k : Text) (v : CurrencyPairState)
        → c.look k s.store ≡ some v
        → (cp : CurrencyPair) × (to_string cp ≡ k)
          × (c.look k s'.store
              ≡ some (
                  entry_after c ctx
                    (quorum_price env total
                      (summary (for_pair cp (Collect.reports env.validator said))))
                    v))
    pub untracked : (k : Text) → c.look k s.store ≡ none → c.look k s'.store ≡ none

  -- The on-chain price of a pair is the stake-weighted median of the votes: with vote extensions enabled,
  -- votes that can be read, the invariant, readable store keys, a good cache of a strategy that has a
  -- meaning, the median as aggregate function, a known total of bonded tokens, no panic of the quotient by
  -- it, and no median for a tracked pair of more than 256 bits, the pre-blocker succeeds, keeps the
  -- invariant, adds no pair, and the entry of each tracked pair has the median of what the votes report for
  -- it, with the block's time and height and the next nonce, or stays, where their weight does not reach
  -- the threshold or the median is negative.
  pub pre_blocker-HasMedians :
      (m : Meaning pa.strategy ctx a.chain) (votes : List Vote) (env : Context → MedianEnv)
      {total : ℕ}
      → Inv c a.chain
      → HasReadableKeys (c.entries a.chain.store)
      → m.IsGood a.voter.cache
      → a.voter.price_aggregator.aggregate_fn_from_context ≡ some (λ x. median (env x))
      → (env ctx).total_bonded_tokens ≡ some total
      → NoPanic (env ctx) total
      → vote_extensions_enabled ctx ≡ true
      → get_oracle_votes pa.ve_codec pa.ext_commit_codec txs ≡ ok votes
      → All
          (λ cp. IsStorable (
            quorum_price (env ctx) total (
              summary (
                for_pair cp
                  (Collect.reports (env ctx).validator (reports m pa.address_string votes []))))))
          (get_all_currency_pairs c a.chain)
      → (a' : Applied c pa.strategy.Cache) × (pre_blocker c pa ctx (some txs) a ≡ (ok tt, a'))
        × HasMedians (env ctx) total (reports m pa.address_string votes []) a.chain a'.chain
  unfolding pre_blocker
  pre_blocker-HasMedians m votes env {total} i h g f t np enabled e fits =
      let said = reports m pa.address_string votes [] in
      let (prices, q, quorum) = median-quorum_price (env ctx) said t np in
      let (a', r, p) = apply_prices-Priced c pa ctx txs a m votes i h g f e q (
        All-mono (get_all_currency_pairs c a.chain) (λ cp n. subst IsStorable (sym (quorum cp)) n)
          fits) in
      (
        a',
        ground (arith, enabled, r),
        record {
          invariant = p.invariant;
          tracked = λ k v l.
              let (cp, key, w) = p.tracked k v l in
              (cp, key, w ∙ ap (λ o. some (entry_after c ctx o v)) (quorum cp));
          untracked = p.untracked;
        },
      )

  -- The other branches change nothing: without a request there is an error, before vote extensions are
  -- enabled there is none, and votes that cannot be read are an error.
  pub pre_blocker-unchanged :
      (pre_blocker c pa ctx none a ≡ (err nil_finalize_request, a))
      × (vote_extensions_enabled ctx ≡ false → pre_blocker c pa ctx (some txs) a ≡ (ok tt, a))
      × ((x : AbciError)
          → vote_extensions_enabled ctx ≡ true
          → get_oracle_votes pa.ve_codec pa.ext_commit_codec txs ≡ err x
          → pre_blocker c pa ctx (some txs) a ≡ (err (apply_failure (bad_votes x)), a))
  unfolding pre_blocker
  pre_blocker-unchanged = (
    ground arith,
    λ off. ground arith,
    λ x on e. ground (arith, apply_prices-bad_votes c pa ctx txs a e),
  )
