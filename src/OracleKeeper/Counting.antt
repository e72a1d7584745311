-- ===== src/OracleKeeper/Counting.antt =====
-- Creating and removing currency pairs (x/oracle/keeper/keeper.go).
use orynx.Prelude.{
  ℕ, ◌+◌, ◌<◌, ◌≡◌, ◌≢◌, refl, none, some, Text, length, arith, ok, err, inl, inr, Option-cases,
}
use orynx.CurrencyPair.{CurrencyPair, to_string}
use orynx.OracleKeeper.{
  PairStore, State, u64_mod, u64_inc, find, create_currency_pair, remove_currency_pair,
  new_currency_pair_state, pair_not_exist, pair_already_exists,
}
use orynx.OracleKeeper.Invariant.{
  Inv, HasRoom, length-set_new, length-remove, free_next, set-HasIds, remove-HasIds,
}

module _ (c : PairStore) where
  -- A successful creation: the pair has the next id, nonce 0 and no price; every other key is as it
  -- was, there is one entry more, and so is the counter of removals.
  pub record Created (cp : CurrencyPair) (s s' : State c.Store) : Type 0 where
    pub entry : find c cp s' ≡ some (new_currency_pair_state s.next_id 0 none)
    pub others : (k : Text) → k ≢ to_string cp → c.look k s'.store ≡ c.look k s.store
    pub next : s'.next_id ≡ s.next_id + 1
    pub count : length (c.entries s'.store) ≡ length (c.entries s.store) + 1
    pub removes : s'.num_removes ≡ s.num_removes

  created_state : State c.Store → c.Store → State c.Store
  created_state s store' = record s {
    store = store';
    next_id = u64_inc s.next_id;
    num_cps = some (length (c.entries s.store) + 1);
  }

  -- In a state that keeps the invariant and has room for one more pair, creating a pair that is not
  -- there succeeds, and the invariant still holds.
  pub create_currency_pair-Inv :
      (cp : CurrencyPair) (s : State c.Store)
      → Inv c s
      → HasRoom c s
      → find c cp s ≡ none
      → (s' : State c.Store) × (create_currency_pair c cp s ≡ (ok tt, s'))
        × Inv c s'
        × Created cp s s'
  unfolding create_currency_pair created_state
  create_currency_pair-Inv cp s i r absent =
      let k = to_string cp in
      let v = new_currency_pair_state s.next_id 0 none in
      let f = free_next c k s.store s.next_id i.ids in
      let (store', e) = c.set_free k v s.store f in
      (
        created_state s store',
        ground (arith, i.counted),
        record {
          ids =
              set-HasIds c k v s.store store' s.next_id (u64_inc s.next_id) e f (omega arith)
                (omega arith) i.ids;
          counted = ground (arith, length-set_new c k v s.store store' absent e);
          removes = i.removes;
        },
        record {
          entry = ground (arith, c.look-set k k v s.store store' e);
          others = λ j n. ground (arith, c.look-set j k v s.store store' e);
          next = omega arith;
          count = length-set_new c k v s.store store' absent e;
          removes = refl;
        },
      )

  -- Creating a pair that is there fails and changes nothing.
  pub create_currency_pair_exists :
      (cp : CurrencyPair) (s : State c.Store)
      → find c cp s ≢ none
      → create_currency_pair c cp s ≡ (err pair_already_exists, s)
  unfolding create_currency_pair
  create_currency_pair_exists cp s h = ground arith

  -- A successful removal: the pair is gone, every other key is as it was, the next id stays, and one
  -- removal more is counted.
  pub record Removed (cp : CurrencyPair) (s s' : State c.Store) : Type 0 where
    pub entry : find c cp s' ≡ none
    pub others : (k : Text) → k ≢ to_string cp → c.look k s'.store ≡ c.look k s.store
    pub next : s'.next_id ≡ s.next_id
    pub removes : (n : ℕ) → s.num_removes ≡ some n → s'.num_removes ≡ some (u64_inc n)

  -- In a state that keeps the invariant, with its number of pairs in the range of the counter,
  -- removing a pair that is there succeeds, and the invariant still holds.
  pub remove_currency_pair-Inv :
      (cp : CurrencyPair) (s : State c.Store)
      → Inv c s
      → length (c.entries s.store) < u64_mod
      → find c cp s ≢ none
      → (s' : State c.Store) × (remove_currency_pair c cp s ≡ (ok tt, s'))
        × Inv c s'
        × Removed cp s s'
  unfolding remove_currency_pair
  remove_currency_pair-Inv cp s i r there = elim (Option-cases s.num_removes) [
    | inl e ↦ absurd (i.removes e)
    | inr (n, e) ↦
        let k = to_string cp in
        let short = length-remove c k s.store there in
        let s' : State c.Store = record s {
          store = c.remove k s.store;
          num_removes = some (u64_inc n);
          num_cps = some (length (c.entries (c.remove k s.store)));
        } in
        (
          s',
          ground (arith, i.counted, short, there),
          record {
            ids = remove-HasIds c k s.store s.next_id i.ids;
            counted = refl;
            removes = λ q. cc q;
          },
          record {
            entry = ground (arith, c.look-remove k k s.store);
            others = λ j ne. ground (arith, c.look-remove j k s.store);
            next = refl;
            removes = λ m q. ground arith;
          },
        )
  ]

  -- Removing a pair that is not there fails and changes nothing.
  pub remove_currency_pair_absent :
      (cp : CurrencyPair) (s : State c.Store)
      → find c cp s ≡ none
      → remove_currency_pair c cp s ≡ (err pair_not_exist, s)
  unfolding remove_currency_pair
  remove_currency_pair_absent cp s h = ground arith
