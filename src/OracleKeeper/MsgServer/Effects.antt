-- ===== src/OracleKeeper/MsgServer/Effects.antt =====
-- What the messages of x/oracle/keeper/msg_server.go do to the state.
use orynx.Prelude.{
  ℕ, ◌+◌, ◌<◌, ◌≡◌, ◌≢◌, refl, true, false, List, [], ◌∷◌, All, none, some, Text, Text-discrete, ok,
  err, length, arith, inl, inr, Option-cases, Bool, ◌⊎◌, ◌∙◌, if◌then◌else◌, ne_none_of_some,
}
use orynx.CurrencyPair.{CurrencyPair, from_string, to_string}
use orynx.OracleKeeper.{
  PairStore, State, CurrencyPairState, find, server_disabled, bad_authority, pair_not_exist,
  u64_mod,
}
use orynx.OracleKeeper.Invariant.{Inv}
use orynx.OracleKeeper.Counting.{create_currency_pair-Inv, remove_currency_pair_absent, Created}
use orynx.OracleKeeper.MsgServer.{add_each, remove_each, add_currency_pairs, remove_currency_pairs}

module _ (c : PairStore) where
  -- Room for `n` more pairs in the counters.
  abbrev pub HasRoomFor : ℕ → State c.Store → Type 0
  HasRoomFor n s = (s.next_id + n < u64_mod) × (length (c.entries s.store) + n < u64_mod)

  -- The listed pairs are all there, and what was there before is as it was.
  pub record Added (cps : List CurrencyPair) (s s' : State c.Store) : Type 0 where
    pub there : All (λ cp. find c cp s' ≢ none) cps
    pub kept :
        (k : Text) (v : CurrencyPairState) → c.look k s.store ≡ some v → c.look k s'.store ≡ some v

  -- An entry that was there is not the one that is created.
  old_entry :
      {cp : CurrencyPair} {s : State c.Store} (k : Text) (v : CurrencyPairState) (t : State c.Store)
      → find c cp s ≡ none
      → Created c cp s t
      → c.look k s.store ≡ some v
      → c.look k t.store ≡ some v
  old_entry {cp} {s} k v t absent made p = elim (Text-discrete k (to_string cp)) [
    | yes e ↦ absurd (ground (arith, e, p, absent))
    | no n ↦ made.others k n ∙ p
  ]

  add_each-Inv :
      (cps : List CurrencyPair) (s : State c.Store)
      → Inv c s
      → HasRoomFor (length cps) s
      → (s' : State c.Store) × (add_each c cps s ≡ (ok tt, s')) × Inv c s' × Added cps s s'
  unfolding add_each
  add_each-Inv [] s i r = (s, refl, i, record { there = tt; kept = λ k v e. e })
  add_each-Inv (cp ∷ cps) s i r = elim (Option-cases (find c cp s)) [
    | inl absent ↦
        let (t, e, j, made) = create_currency_pair-Inv c cp s i (omega arith) absent in
        let (s', q, j', a) = add_each-Inv cps t j (omega (arith, made.next, made.count)) in
        (
          s',
          ground (arith, e, q),
          j',
          record {
            there = (ne_none_of_some (a.kept (to_string cp) _ made.entry), a.there);
            kept = λ k v p. a.kept k v (old_entry k v t absent made p);
          },
        )
    | inr (v, there) ↦
        let (s', e, j, a) = add_each-Inv cps s i (omega arith) in
        (
          s',
          ground (arith, e),
          j,
          record { there = (ground (arith, a.kept (to_string cp) v), a.there); kept = a.kept },
        )
  ]

  -- Adding pairs: with the market map off and the right signer, in a state that keeps the invariant and
  -- has room for the listed pairs, the message succeeds, the invariant still holds, every listed pair
  -- is there, and what was there before is as it was.
  pub add_currency_pairs-Inv :
      (authority : Text) (cps : List CurrencyPair) (s : State c.Store)
      → Inv c s
      → HasRoomFor (length cps) s
      → (s' : State c.Store) × (add_currency_pairs c false authority authority cps s ≡ (ok tt, s'))
        × Inv c s'
        × Added cps s s'
  unfolding add_currency_pairs
  add_currency_pairs-Inv authority cps s i r =
      let (s', e, j, a) = add_each-Inv cps s i r in (s', ground (arith, e), j, a)

  -- Both messages are refused, and change nothing, if there is a market map keeper, and otherwise if
  -- the signer is not the authority of the module.
  pub msg_refused :
      (has_market_map : Bool) (authority signer : Text) (cps : List CurrencyPair) (ids : List Text)
      (s : State c.Store)
      → (has_market_map ≡ true) ⊎ (signer ≢ authority)
      → let e = if has_market_map then server_disabled else bad_authority in
        (add_currency_pairs c has_market_map authority signer cps s ≡ (err e, s))
        × (remove_currency_pairs c has_market_map authority signer ids s ≡ (err e, s))
  unfolding add_currency_pairs remove_currency_pairs
  msg_refused true authority signer cps ids s h = (refl, refl)
  msg_refused false authority signer cps ids s h = ground arith

  -- A removal message that lists a pair which is not tracked does not skip it: it fails there, and the
  -- pairs listed after it are not removed.
  pub remove_currency_pairs_untracked :
      (authority : Text) (id : Text) (ids : List Text) (cp : CurrencyPair) (s : State c.Store)
      → from_string id ≡ ok cp
      → find c cp s ≡ none
      → remove_currency_pairs c false authority authority (id ∷ ids) s ≡ (err pair_not_exist, s)
  unfolding remove_currency_pairs remove_each
  remove_currency_pairs_untracked authority id ids cp s e absent =
      ground (arith, remove_currency_pair_absent c cp s absent)
