-- ===== src/OracleKeeper/Lookup.antt =====
-- Pairs and their ids (x/oracle/keeper/keeper.go): each can be had from the other, and iteration
-- finds every pair.
use orynx.Prelude.{
  ℕ, ◌≡◌, refl, ap, ◌∙◌, List, [], ◌∷◌, map, none, some, Text, Text-discrete, arith, ok, err, inl,
  inr, Option-cases, false,
}
use orynx.Prelude.Dict.{get, IsMap}
use orynx.CurrencyPair.{
  CurrencyPair, to_string, from_string, validate_basic, contains, pair_separator,
}
use orynx.CurrencyPair.RoundTrip.{from_string-to_string}
use orynx.OracleKeeper.{PairStore, CurrencyPairState, State, Entries, find, not_found}
use orynx.OracleKeeper.Queries.{
  iterate_currency_pairs, get_id_for_currency_pair, get_currency_pair_from_id,
  get_all_currency_pairs, get_price_with_nonce_for_currency_pair, get_currency_pair_mapping_list,
  pair_of, mapping_of,
}
use orynx.OracleKeeper.Invariant.{Inv}

-- A valid pair whose fields hold no slash, so that its string can be read back.
abbrev pub IsReadable : CurrencyPair → Type 0
IsReadable cp =
    (validate_basic cp ≡ ok tt)
    × (contains pair_separator cp.base ≡ false)
    × (contains pair_separator cp.quote ≡ false)

-- Every key is the string of the pair that it is read as.
abbrev pub HasReadableKeys : Entries → Type 0
HasReadableKeys m =
    (k : Text) (v : CurrencyPairState)
    → get Text-discrete k m ≡ some v
    → (cp : CurrencyPair) × (from_string k ≡ ok cp) × (to_string cp ≡ k)

abbrev pub entry_of : CurrencyPair × CurrencyPairState → Text × CurrencyPairState
entry_of (cp, v) = (to_string cp, v)

abbrev pub key_of : Text × CurrencyPairState → Text
key_of (k, v) = k

abbrev pub key_id_of : Text × CurrencyPairState → Text × ℕ
key_id_of (k, v) = (k, v.id)

abbrev pub mapping_key_id : ℕ × CurrencyPair → Text × ℕ
mapping_key_id (id, cp) = (to_string cp, id)

keys_of_pairs :
    (l : List (CurrencyPair × CurrencyPairState))
    → map to_string (map pair_of l) ≡ map key_of (map entry_of l)
keys_of_pairs [] = refl
keys_of_pairs ((cp, v) ∷ l) = ap (◌∷◌ (to_string cp)) (keys_of_pairs l)

ids_of_pairs :
    (l : List (CurrencyPair × CurrencyPairState))
    → map mapping_key_id (map mapping_of l) ≡ map key_id_of (map entry_of l)
ids_of_pairs [] = refl
ids_of_pairs ((cp, v) ∷ l) = ap (◌∷◌ (to_string cp, v.id)) (ids_of_pairs l)

pub iterate_readable :
    (m : Entries)
    → IsMap Text-discrete m
    → HasReadableKeys m
    → ((iterate_currency_pairs m).1 ≡ none) × (map entry_of (iterate_currency_pairs m).0 ≡ m)
unfolding iterate_currency_pairs get
iterate_readable [] i h = (refl, refl)
iterate_readable ((k, v) ∷ m) i h =
    let rest = iterate_readable m i.1 (λ j w e. h j w (ground (arith, i.0))) in
    let (cp, e, q) = h k v (ground arith) in ground (arith, rest, e, q)

module _ (c : PairStore) where
  -- The pair of the id of a pair: in a state that keeps the invariant, a readable pair that is there is
  -- found again under its id.
  pub from_id-of_pair :
      (cp : CurrencyPair) (s : State c.Store) {id : ℕ}
      → Inv c s
      → IsReadable cp
      → get_id_for_currency_pair c cp s ≡ some id
      → get_currency_pair_from_id c id s ≡ some cp
  unfolding get_id_for_currency_pair get_currency_pair_from_id
  from_id-of_pair cp s {id} i r e = elim (Option-cases (find c cp s)) [
    | inl absent ↦ absurd (ground arith)
    | inr (v, there) ↦ elim (Option-cases (c.match_exact id s.store)) [
      | inl q ↦ absurd (c.match_exact_none id (to_string cp) v s.store q there (ground arith))
      | inr (k, q) ↦
          let (w, there', same) = c.match_exact_some id k s.store q in
          let key = i.ids.distinct k (to_string cp) w v there' there (ground arith) in
          rw (q, get_currency_pair_from_id) (rw key (rw (from_string-to_string cp r.0 r.1 r.2)))
    ]
  ]

  -- The id of the pair of an id: where every key is the string of the pair that it is read as, the pair
  -- that an id is resolved to has that id.
  pub id-of_from_id :
      (id : ℕ) (s : State c.Store) {cp : CurrencyPair}
      → HasReadableKeys (c.entries s.store)
      → get_currency_pair_from_id c id s ≡ some cp
      → get_id_for_currency_pair c cp s ≡ some id
  unfolding get_id_for_currency_pair get_currency_pair_from_id
  id-of_from_id id s {cp} h e = elim (Option-cases (c.match_exact id s.store)) [
    | inl q ↦ absurd (ground arith)
    | inr (k, q) ↦
        let (v, there, same) = c.match_exact_some id k s.store q in
        let (cp', parsed, key) = h k v (c.get-entries k s.store ∙ there) in
        ground (arith, q, there, same, parsed, key)
  ]

  -- Where every key is readable, no pair is lost in an iteration: it ends without an error, the strings
  -- of the pairs of `GetAllCurrencyPairs` are the keys of the store in their order, and the list of
  -- ids has one row for each.
  pub get_all_complete :
      (s : State c.Store)
      → HasReadableKeys (c.entries s.store)
      → (map to_string (get_all_currency_pairs c s) ≡ map key_of (c.entries s.store))
        × (l : List (ℕ × CurrencyPair)) × (get_currency_pair_mapping_list c s ≡ ok l)
        × (map mapping_key_id l ≡ map key_id_of (c.entries s.store))
  unfolding get_all_currency_pairs get_currency_pair_mapping_list
  get_all_complete s h =
      let m = c.entries s.store in
      let l = (iterate_currency_pairs m).0 in
      let (e, q) = iterate_readable m (c.entries-IsMap s.store) h in
      (
        keys_of_pairs l ∙ ap (map key_of) q,
        map mapping_of l,
        ground arith,
        ids_of_pairs l ∙ ap (map key_id_of) q,
      )

  -- The price with its nonce is there for every tracked pair, also for one that has no price yet, and
  -- for no other pair.
  pub price_with_nonce_lem :
      (cp : CurrencyPair) (s : State c.Store)
      → ((v : CurrencyPairState)
          → find c cp s ≡ some v
          → get_price_with_nonce_for_currency_pair c cp s
            ≡ ok (record { quote_price = v.price; nonce = v.nonce }))
        × (find c cp s ≡ none → get_price_with_nonce_for_currency_pair c cp s ≡ err not_found)
  unfolding get_price_with_nonce_for_currency_pair
  price_with_nonce_lem cp s = (λ v e. ground arith, λ e. ground arith)
