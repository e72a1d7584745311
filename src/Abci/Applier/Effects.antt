-- ===== src/Abci/Applier/Effects.antt =====
-- `ApplyPricesFromVoteExtensions` (abci/strategies/aggregator/price_applier.go) as a whole: from the
-- transactions of a proposal to the prices in the state.
use orynx.Prelude.{
  ◌≡◌, ◌≢◌, sym, ap, ◌∙◌, List, [], ◌∷◌, map, none, some, Text, Text-discrete, ok, err, arith, All,
  All-mono, All-zip,
}
use mathlib.Core.Path.{subst}
use orynx.Prelude.Dict.{get, IsMap}
use orynx.CurrencyPair.{CurrencyPair, CurrencyPair-discrete, to_string}
use orynx.Median.{Prices}
use orynx.OracleKeeper.{PairStore, CurrencyPairState, State, Entries, find}
use orynx.OracleKeeper.Invariant.{Inv}
use orynx.OracleKeeper.Lookup.{HasReadableKeys, entry_of, iterate_readable}
use orynx.OracleKeeper.Queries.{get_all_currency_pairs, iterate_currency_pairs, pair_of}
use orynx.Aggregator.{AggregateFn}
use orynx.Abci.{Context, AbciError}
use orynx.Abci.Votes.{Vote, aggregate_oracle_votes}
use orynx.Abci.Votes.Extraction.{get_oracle_votes}
use orynx.Abci.Votes.Reading.{Meaning, reports}
use orynx.Abci.Votes.Collected.{aggregate_oracle_votes_lem}
use orynx.Abci.Applier.{
  Applied, PriceApplier, write_prices, apply_prices_from_vote_extensions, bad_votes,
}
use orynx.Abci.Applier.Writes.{AreDistinct, IsStorable, IsTracked, entry_after, write_prices_lem}

other_keys :
    (k : Text) (l : List (CurrencyPair × CurrencyPairState))
    → get Text-discrete k (map entry_of l) ≡ none
    → All (λ cp. k ≢ to_string cp) (map pair_of l)
unfolding get
other_keys k [] e = tt
other_keys k ((cp, v) ∷ l) e = (λ q. ground arith, other_keys k l (ground arith))

pairs_distinct :
    (l : List (CurrencyPair × CurrencyPairState))
    → IsMap Text-discrete (map entry_of l)
    → AreDistinct (map pair_of l)
pairs_distinct [] i = tt
pairs_distinct ((cp, v) ∷ l) i = (
  All-mono (map pair_of l) (λ x n q. n (sym q)) (other_keys (to_string cp) l i.0),
  pairs_distinct l i.1,
)

abbrev IsListed : Entries → CurrencyPair → Type 0
IsListed m cp = (v : CurrencyPairState) × (get Text-discrete (to_string cp) m ≡ some v)

pairs-IsListed :
    (l : List (CurrencyPair × CurrencyPairState))
    → IsMap Text-discrete (map entry_of l)
    → All (IsListed (map entry_of l)) (map pair_of l)
unfolding get
pairs-IsListed [] i = tt
pairs-IsListed ((cp, v) ∷ l) i = (
  (v, ground arith),
  All-zip {R = IsListed (map entry_of ((cp, v) ∷ l))} (map pair_of l)
      (λ x n (w, q). (w, ground arith)) (pairs_distinct ((cp, v) ∷ l) i).0 (pairs-IsListed l i.1),
)

-- What holds of every listed pair holds of the pair of a listed key.
pair_of_key :
    (l : List (CurrencyPair × CurrencyPairState)) (P : CurrencyPair → Type 0) (k : Text)
    {v : CurrencyPairState}
    → All P (map pair_of l)
    → get Text-discrete k (map entry_of l) ≡ some v
    → (cp : CurrencyPair) × (to_string cp ≡ k) × P cp
unfolding get
pair_of_key [] P k {v} h e = absurd (ground arith)
pair_of_key ((cp, w) ∷ l) P k {v} h e = elim (Text-discrete k (to_string cp)) [
  | yes same ↦ (cp, sym same, h.0)
  | no other ↦ pair_of_key l P k {v = v} h.1 (ground arith)
]

module _ (c : PairStore) where
  -- The state after a block with these aggregated prices.
  pub record Priced (ctx : Context) (prices : Prices) (s s' : State c.Store) : Type 0 where
    pub invariant : Inv c s'
    pub tracked :
        (k : Text) (v : CurrencyPairState)
        → c.look k s.store ≡ some v
        → (cp : CurrencyPair) × (to_string cp ≡ k)
          × (c.look k s'.store ≡ some (entry_after c ctx (get CurrencyPair-discrete cp prices) v))
    pub untracked : (k : Text) → c.look k s.store ≡ none → c.look k s'.store ≡ none

  abbrev WrittenPair : Context → Prices → State c.Store → State c.Store → CurrencyPair → Type 0
  WrittenPair ctx prices s s' cp =
      (v : CurrencyPairState)
      → find c cp s ≡ some v
      → find c cp s' ≡ some (entry_after c ctx (get CurrencyPair-discrete cp prices) v)

  pub write_prices-Priced :
      (ctx : Context) (prices : Prices) (s : State c.Store)
      → Inv c s
      → HasReadableKeys (c.entries s.store)
      → All (λ cp. IsStorable (get CurrencyPair-discrete cp prices)) (get_all_currency_pairs c s)
      → (s' : State c.Store) × (write_prices c ctx prices (get_all_currency_pairs c s) s
          ≡ (ok tt, s'))
        × Priced ctx prices s s'
  unfolding get_all_currency_pairs
  write_prices-Priced ctx prices s i h n =
      let l = (iterate_currency_pairs (c.entries s.store)).0 in
      let (e, q) = iterate_readable (c.entries s.store) (c.entries-IsMap s.store) h in
      let keys = (k : Text) → get Text-discrete k (map entry_of l) ≡ c.look k s.store in
      let look_l : keys = λ k. ap (get Text-discrete k) q ∙ c.get-entries k s.store in
      let i_l = subst (IsMap Text-discrete) (sym q) (c.entries-IsMap s.store) in
      let tracked =
        All-mono {Q = IsTracked c ctx s} (map pair_of l)
          (λ cp (v, g). (v, sym (look_l (to_string cp)) ∙ g)) (pairs-IsListed l i_l) in
      let (s', r, i', w) =
        write_prices_lem c ctx prices (map pair_of l) s i (pairs_distinct l i_l) tracked n in
      (
        s',
        r,
        record {
          invariant = i';
          tracked = λ k v g.
              let (cp, key, f) =
                pair_of_key l (WrittenPair ctx prices s s') k {v = v} w.entries (look_l k ∙ g) in
              (
                cp,
                key,
                ap (λ x. c.look x s'.store) (sym key) ∙ f v (ap (λ x. c.look x s.store) key ∙ g),
              );
          untracked = λ k g. w.others k (other_keys k l (look_l k ∙ g)) ∙ g;
        },
      )

  module _ (pa : PriceApplier c) (ctx : Context) (txs : List Text)
      (a : Applied c pa.strategy.Cache) where
    -- The prices of a block reach the state: if the votes of the proposal can be read, the state keeps
    -- the invariant with readable keys, the caches are good and the aggregate function returns prices
    -- of at most 256 bits for what the votes report, then `ApplyPricesFromVoteExtensions` returns these prices; every tracked pair
    -- with a price that is not negative gets it, with the time and height of the block and the next
    -- nonce; every other tracked pair keeps its entry; no pair is added; and the invariant still holds.
    pub apply_prices-Priced :
        (m : Meaning pa.strategy ctx a.chain) (votes : List Vote)
        {fn : Context → AggregateFn Text Prices} {prices : Prices}
        → Inv c a.chain
        → HasReadableKeys (c.entries a.chain.store)
        → m.IsGood a.voter.cache
        → a.voter.price_aggregator.aggregate_fn_from_context ≡ some fn
        → get_oracle_votes pa.ve_codec pa.ext_commit_codec txs ≡ ok votes
        → fn ctx (reports m pa.address_string votes []) ≡ some prices
        → All
            (λ cp. IsStorable (get CurrencyPair-discrete cp prices))
            (get_all_currency_pairs c a.chain)
        → (a' : Applied c pa.strategy.Cache) × (apply_prices_from_vote_extensions c pa ctx txs a
            ≡ (ok prices, a'))
          × Priced ctx prices a.chain a'.chain
    unfolding apply_prices_from_vote_extensions
    apply_prices-Priced m votes {fn} {prices} i h g f e q n =
        let (r, good, kept, said) =
          aggregate_oracle_votes_lem m pa.address_string votes a.voter f g in
        let (s', w, p) = write_prices-Priced ctx prices a.chain i h n in
        let v =
          (aggregate_oracle_votes pa.strategy pa.address_string ctx a.chain votes a.voter).1 in
        (record { voter = v; chain = s' }, ground (arith, r, w, e, q), p)

    -- Votes that cannot be read change nothing.
    pub apply_prices-bad_votes :
        {x : AbciError}
        → get_oracle_votes pa.ve_codec pa.ext_commit_codec txs ≡ err x
        → apply_prices_from_vote_extensions c pa ctx txs a ≡ (err (bad_votes x), a)
    unfolding apply_prices_from_vote_extensions
    apply_prices-bad_votes {x} e = ground arith
