-- ===== src/OracleKeeper/Genesis.antt =====
-- x/oracle/keeper/genesis.go. A panic is an error of the model.
use orynx.Prelude.{
  ℕ, ◌+◌, ◌%◌, ◌<◌, ◌≡◌, ◌≢◌, refl, true, false, List, [], ◌∷◌, map, All, none, some, Text,
  Text-discrete, length, Result, ok, err, arith, ap, ◌∙◌, inl, inr, Option-cases,
}
use orynx.Prelude.Action.{◌>>◌, pure, lift, modify}
use orynx.CurrencyPair.{CurrencyPair, to_string}
use orynx.OracleKeeper.{
  PairStore, CurrencyPairState, State, KeeperError, Keeping, set_state, find, u64_mod,
}
use orynx.OracleKeeper.GenesisState.{
  CurrencyPairGenesis, GenesisState, validate, validate_from, has_id, has_key, state_of,
}
use orynx.Prelude.Dict.{get}
use orynx.Prelude.Counts.{length_of_get}
use orynx.OracleKeeper.Queries.{iterate_currency_pairs}
use orynx.OracleKeeper.Lookup.{HasReadableKeys, entry_of, iterate_readable}
use orynx.OracleKeeper.Invariant.{HasIds, Inv, length-set_new, set-HasIds}

abbrev pub exported : CurrencyPair × CurrencyPairState → CurrencyPairGenesis
exported (cp, cps) = record {
  currency_pair = cp;
  currency_pair_price = cps.price;
  nonce = cps.nonce;
  id = cps.id;
}

-- The entry that `InitGenesis` writes.
abbrev pub listed_as : CurrencyPairGenesis → Text × CurrencyPairState
listed_as cpg = (to_string cpg.currency_pair, state_of cpg)

listed_exported :
    (l : List (CurrencyPair × CurrencyPairState)) → map listed_as (map exported l) ≡ map entry_of l
listed_exported [] = refl
listed_exported ((cp, v) ∷ l) = ap (◌∷◌ (to_string cp, v)) (listed_exported l)

module _ (c : PairStore) where
  -- The loop of `InitGenesis`.
  unfoldable pub write_entries : List CurrencyPairGenesis → Keeping c (Unit {0})
  write_entries [] = pure tt
  write_entries (cpg ∷ rest) = do set_state c cpg.currency_pair (state_of cpg); write_entries rest

  unfoldable pub init_genesis : GenesisState → Keeping c (Unit {0})
  init_genesis gs = do
    lift (validate gs)
    write_entries gs.currency_pair_genesis
    modify (λ s. record s { next_id = gs.next_id })
    modify (λ s. record s { num_cps = some (length gs.currency_pair_genesis % u64_mod) })
    modify (λ s. record s { num_removes = some 0 })

  unfoldable pub export_genesis : State c.Store → Result KeeperError GenesisState
  export_genesis s =
      let (l, failed) = iterate_currency_pairs (c.entries s.store) in
      elim failed [
        | some e ↦ err e
        | none ↦ ok (record { currency_pair_genesis = map exported l; next_id = s.next_id })
      ]

  -- What `write_entries` does to a store whose ids and keys are among the seen ones.
  record Written (ids : List ℕ) (cps : List Text) (next : ℕ) (gs : List CurrencyPairGenesis)
      (s s' : State c.Store) : Type 0 where
    in_order : HasIds c s'.store next
    counted : length (c.entries s'.store) ≡ length (c.entries s.store) + length gs
    found : All (λ cpg. find c cpg.currency_pair s' ≡ some (state_of cpg)) gs
    kept : (k : Text) → has_key k cps ≡ true → c.look k s'.store ≡ c.look k s.store

  -- The ids and keys in the store are among the seen ones.
  record IsSeen (ids : List ℕ) (cps : List Text) (s : State c.Store) : Type 0 where
    keys : (k : Text) (v : CurrencyPairState) → c.look k s.store ≡ some v → has_key k cps ≡ true
    values : (k : Text) (v : CurrencyPairState) → c.look k s.store ≡ some v → has_id v.id ids ≡ true

  -- Writing an entry whose id and key were not seen.
  set-IsSeen :
      (cpg : CurrencyPairGenesis) (ids : List ℕ) (cps : List Text) (s : State c.Store)
      (store' : c.Store)
      → c.set (to_string cpg.currency_pair) (state_of cpg) s.store ≡ some store'
      → IsSeen ids cps s
      → IsSeen (cpg.id ∷ ids) (to_string cpg.currency_pair ∷ cps) (record s { store = store' })
  set-IsSeen cpg ids cps s store' e seen =
      let look' =
        λ (k : Text). c.look-set k (to_string cpg.currency_pair) (state_of cpg) s.store store' e in
      record {
        keys = λ k v p. ground (arith, look' k, seen.keys k v);
        values = λ k v p. ground (arith, look' k, seen.values k v);
      }

  Written-cons :
      (cpg : CurrencyPairGenesis) (gs : List CurrencyPairGenesis) (ids : List ℕ) (cps : List Text)
      (next : ℕ) (s s' : State c.Store) (store' : c.Store)
      → c.set (to_string cpg.currency_pair) (state_of cpg) s.store ≡ some store'
      → c.look (to_string cpg.currency_pair) s.store ≡ none
      → has_key (to_string cpg.currency_pair) cps ≡ false
      → Written
          (cpg.id ∷ ids)
          (to_string cpg.currency_pair ∷ cps)
          next
          gs
          (record s { store = store' })
          s'
      → Written ids cps next (cpg ∷ gs) s s'
  Written-cons cpg gs ids cps next s s' store' e absent new w =
      let key = to_string cpg.currency_pair in
      let look' = λ (k : Text). c.look-set k key (state_of cpg) s.store store' e in
      record {
        in_order = w.in_order;
        counted =
            omega (arith, w.counted, length-set_new c key (state_of cpg) s.store store' absent e);
        found = (ground (arith, look' key, w.kept key), w.found);
        kept = λ k p. ground (arith, look' k, w.kept k);
      }

  no_entries : (t : c.Store) → ((k : Text) → c.look k t ≡ none) → length (c.entries t) ≡ 0
  unfolding get
  no_entries t empty =
      length_of_get Text-discrete (c.entries t) [] (c.entries-IsMap t) tt
        (λ k. c.get-entries k t ∙ empty k)

  -- What a passed step of the validation says.
  validated :
      (cpg : CurrencyPairGenesis) (gs : List CurrencyPairGenesis) (ids : List ℕ) (cps : List Text)
      (next : ℕ)
      → validate_from next ids cps (cpg ∷ gs) ≡ ok tt
      → (cpg.id < next)
        × (has_id cpg.id ids ≡ false)
        × (has_key (to_string cpg.currency_pair) cps ≡ false)
        × (validate_from next (cpg.id ∷ ids) (to_string cpg.currency_pair ∷ cps) gs ≡ ok tt)
  unfolding validate_from
  validated cpg gs ids cps next h = ground arith

  write_entries-Written :
      (gs : List CurrencyPairGenesis) (ids : List ℕ) (cps : List Text) (next : ℕ)
      (s : State c.Store)
      → validate_from next ids cps gs ≡ ok tt
      → HasIds c s.store next
      → IsSeen ids cps s
      → (s' : State c.Store) × (write_entries gs s ≡ (ok tt, s')) × Written ids cps next gs s s'
  unfolding write_entries
  write_entries-Written [] ids cps next s v h seen =
      (s, refl, record { in_order = h; counted = omega arith; found = tt; kept = λ k e. refl })
  write_entries-Written (cpg ∷ gs) ids cps next s v h seen =
      let key = to_string cpg.currency_pair in
      let (below, new_id, new_key, rest) = validated cpg gs ids cps next v in
      let free =
        λ (j : Text) (w : CurrencyPairState) (p : c.look j s.store ≡ some w) (ne : j ≢ key).
          unseen_id j w new_id p in
      let (store', e) = c.set_free key (state_of cpg) s.store free in
      let h' =
        set-HasIds c key (state_of cpg) s.store store' next next e free below (omega arith) h in
      let (s', r, w) =
        write_entries-Written gs (cpg.id ∷ ids) (key ∷ cps) next (record s { store = store' }) rest
          h' (set-IsSeen cpg ids cps s store' e seen) in
      (
        s',
        ground (arith, e, r),
        Written-cons cpg gs ids cps next s s' store' e (unseen_key new_key) new_key w,
      )
    where
      unseen_id :
          (j : Text) (w : CurrencyPairState)
          → has_id cpg.id ids ≡ false
          → c.look j s.store ≡ some w
          → w.id ≢ cpg.id
      unseen_id j w n p q = ground (arith, seen.values j w p)

      unseen_key :
          has_key (to_string cpg.currency_pair) cps ≡ false
          → c.look (to_string cpg.currency_pair) s.store ≡ none
      unseen_key n = elim (Option-cases (c.look (to_string cpg.currency_pair) s.store)) [
        | inl e ↦ e
        | inr (w, e) ↦ absurd (ground (arith, seen.keys (to_string cpg.currency_pair) w e))
      ]

  -- Genesis on an empty store: when `Validate` accepts the genesis state and its pairs fit the counter,
  -- `InitGenesis` succeeds, the invariant holds, and every listed pair is found with its id, its nonce
  -- and its price.
  pub init_genesis-Inv :
      (gs : GenesisState) (s : State c.Store)
      → validate gs ≡ ok tt
      → ((k : Text) → c.look k s.store ≡ none)
      → length gs.currency_pair_genesis < u64_mod
      → (s' : State c.Store) × (init_genesis gs s ≡ (ok tt, s'))
        × Inv c s'
        × (s'.next_id ≡ gs.next_id)
        × All (λ cpg. find c cpg.currency_pair s' ≡ some (state_of cpg)) gs.currency_pair_genesis
  unfolding init_genesis validate
  init_genesis-Inv gs s v empty small =
      let h : HasIds c s.store gs.next_id = record {
        fresh = λ k w p. absurd (ground (arith, empty k));
        distinct = λ j k w u p q r. absurd (ground (arith, empty j));
      } in
      let seen : IsSeen [] [] s = record {
        keys = λ k w p. absurd (ground (arith, empty k));
        values = λ k w p. absurd (ground (arith, empty k));
      } in
      let (s', r, w) = write_entries-Written gs.currency_pair_genesis [] [] gs.next_id s v h seen in
      (
        record {
          store = s'.store;
          next_id = gs.next_id;
          num_removes = some 0;
          num_cps = some (length gs.currency_pair_genesis % u64_mod);
        },
        ground (arith, r, v),
        record {
          ids = w.in_order;
          counted = ground (arith, w.counted, no_entries s.store empty);
          removes = λ q. cc q;
        },
        refl,
        w.found,
      )

  -- `ExportGenesis` where every key is readable: it succeeds, and gives the next id and, in the order of
  -- the store, each key with exactly the state that is stored under it.
  pub export_genesis_lem :
      (s : State c.Store)
      → HasReadableKeys (c.entries s.store)
      → (gs : GenesisState) × (export_genesis s ≡ ok gs)
        × (gs.next_id ≡ s.next_id)
        × (map listed_as gs.currency_pair_genesis ≡ c.entries s.store)
  unfolding export_genesis
  export_genesis_lem s h =
      let m = c.entries s.store in
      let l = (iterate_currency_pairs m).0 in
      let (e, q) = iterate_readable m (c.entries-IsMap s.store) h in
      (
        record { currency_pair_genesis = map exported l; next_id = s.next_id },
        ground arith,
        refl,
        listed_exported l ∙ q,
      )
