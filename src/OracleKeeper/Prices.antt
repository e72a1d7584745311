-- ===== src/OracleKeeper/Prices.antt =====
-- `SetPriceForCurrencyPair` (x/oracle/keeper/keeper.go): the price, the nonce, and the counter of the
-- pairs.
use orynx.Prelude.{
  ◌+◌, ◌<◌, ◌≡◌, ◌≢◌, refl, List, [], ◌∷◌, Option, none, some, Text, length, arith, ok,
}
use orynx.CurrencyPair.{CurrencyPair, to_string}
use orynx.OracleKeeper.{
  PairStore, CurrencyPairState, QuotePrice, State, u64_mod, u64_inc, find,
  set_price_for_currency_pair, new_currency_pair_state,
}
use orynx.OracleKeeper.Invariant.{
  Inv, HasRoom, length-set_new, length-set_old, free_next, free_own, set-HasIds,
}

module _ (c : PairStore) where
  -- A price update of a known pair: the price is the new one, the nonce is one more, the id stays, and
  -- nothing else changes.
  pub record Updated (cp : CurrencyPair) (qp : QuotePrice) (v : CurrencyPairState)
      (s s' : State c.Store) : Type 0 where
    pub entry : find c cp s' ≡ some (record { price = some qp; nonce = u64_inc v.nonce; id = v.id })
    pub others : (k : Text) → k ≢ to_string cp → c.look k s'.store ≡ c.look k s.store
    pub next : s'.next_id ≡ s.next_id
    pub count : s'.num_cps ≡ s.num_cps

  -- In a state that keeps the invariant, setting the price of a pair that is there succeeds, and the
  -- invariant still holds.
  pub set_price-Inv :
      (cp : CurrencyPair) (qp : QuotePrice) (s : State c.Store) {v : CurrencyPairState}
      → Inv c s
      → find c cp s ≡ some v
      → (s' : State c.Store) × (set_price_for_currency_pair c cp qp s ≡ (ok tt, s'))
        × Inv c s'
        × Updated cp qp v s s'
  unfolding set_price_for_currency_pair
  set_price-Inv cp qp s {v} i e =
      let k = to_string cp in
      let v' : CurrencyPairState = record { price = some qp; nonce = u64_inc v.nonce; id = v.id } in
      let f = free_own c k v s.store s.next_id i.ids e in
      let (store', w) = c.set_free k v' s.store f in
      (
        record s { store = store' },
        ground arith,
        record {
          ids =
              set-HasIds c k v' s.store store' s.next_id s.next_id w f (i.ids.fresh k v e)
                (omega arith) i.ids;
          counted = ground (arith, i.counted, length-set_old c k v' s.store store' (λ q. cc) w);
          removes = i.removes;
        },
        record {
          entry = ground (arith, c.look-set k k v' s.store store' w);
          others = λ j n. ground (arith, c.look-set j k v' s.store store' w);
          next = refl;
          count = refl;
        },
      )

  -- The price updates of a block, one after the other.
  abbrev pub set_prices : CurrencyPair → List QuotePrice → State c.Store → State c.Store
  set_prices cp [] s = s
  set_prices cp (qp ∷ qps) s = set_prices cp qps (set_price_for_currency_pair c cp qp s).1

  abbrev last_price : Option QuotePrice → List QuotePrice → Option QuotePrice
  last_price o [] = o
  last_price o (qp ∷ qps) = last_price (some qp) qps

  -- The nonce counts the price updates: while it stays within 64 bits, a known pair ends with its id,
  -- with a nonce that is larger by the number of updates, and with the last price.
  pub set_prices-nonce :
      (cp : CurrencyPair) (qps : List QuotePrice) (s : State c.Store) {v : CurrencyPairState}
      → Inv c s
      → find c cp s ≡ some v
      → v.nonce + length qps < u64_mod
      → find c cp (set_prices cp qps s)
        ≡ some (record { price = last_price v.price qps; nonce = v.nonce + length qps; id = v.id })
  set_prices-nonce cp [] s {v} i e h = ground arith
  set_prices-nonce cp (qp ∷ qps) s {v} i e h =
      let (s', r, i', u) = set_price-Inv cp qp s i e in
      let v' : CurrencyPairState = record { price = some qp; nonce = u64_inc v.nonce; id = v.id } in
      rw r (ground (arith, set_prices-nonce cp qps s' {v = v'} i' u.entry (omega arith)))

  -- Setting the price of a pair that is not there adds the pair, with the next id and with nonce 0, but
  -- does not count it: the counter of the pairs then falls short of their number by one.
  pub set_price_uncounted :
      (cp : CurrencyPair) (qp : QuotePrice) (s : State c.Store)
      → Inv c s
      → HasRoom c s
      → find c cp s ≡ none
      → (s' : State c.Store) × (set_price_for_currency_pair c cp qp s ≡ (ok tt, s'))
        × (find c cp s' ≡ some (new_currency_pair_state s.next_id 0 (some qp)))
        × (s'.num_cps ≡ some (length (c.entries s.store)))
        × (length (c.entries s'.store) ≡ length (c.entries s.store) + 1)
  unfolding set_price_for_currency_pair
  set_price_uncounted cp qp s i r absent =
      let k = to_string cp in
      let v = new_currency_pair_state s.next_id 0 (some qp) in
      let (store', e) = c.set_free k v s.store (free_next c k s.store s.next_id i.ids) in
      (
        record s { store = store'; next_id = u64_inc s.next_id },
        ground arith,
        ground (arith, c.look-set k k v s.store store' e),
        i.counted,
        length-set_new c k v s.store store' absent e,
      )
