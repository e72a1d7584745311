-- ===== src/OracleKeeper/Invariant.antt =====
-- What x/oracle/keeper/keeper.go keeps true of its collections, and how the store's own operations
-- act on it.
use orynx.Prelude.{
  ℕ, ◌+◌, ◌<◌, ◌≤◌, ◌≡◌, ◌≢◌, ◌∙◌, sym, none, some, Text, Text-discrete, length, arith,
}
use orynx.Prelude.Dict.{put, get-put, get-delete, put-IsMap}
use orynx.Prelude.Counts.{
  length-put_new, length-put_old, length-delete, delete-IsMap, length_of_get,
}
use orynx.OracleKeeper.Store.{IsFreeId}
use orynx.OracleKeeper.{PairStore, CurrencyPairState, State, u64_mod}

module _ (c : PairStore) where
  open c use {look, set, remove, entries, look-set, look-remove, entries-IsMap, get-entries}

  -- Ids are below the next id and belong to one pair each.
  pub record HasIds (s : c.Store) (next_id : ℕ) : Type 0 where
    pub fresh : (k : Text) (v : CurrencyPairState) → look k s ≡ some v → v.id < next_id
    pub distinct :
        (j k : Text) (v w : CurrencyPairState)
        → look j s ≡ some v
        → look k s ≡ some w
        → v.id ≡ w.id
        → j ≡ k

  -- The counter of the pairs is their number, and genesis has set the counter of removals.
  pub record Inv (s : State c.Store) : Type 0 where
    pub ids : HasIds s.store s.next_id
    pub counted : s.num_cps ≡ some (length (entries s.store))
    pub removes : s.num_removes ≢ none

  -- One more pair fits the counters.
  abbrev pub HasRoom : State c.Store → Type 0
  HasRoom s = (s.next_id + 1 < u64_mod) × (length (entries s.store) + 1 < u64_mod)

  length-entries-put :
      (k : Text) (v : CurrencyPairState) (s s' : c.Store)
      → set k v s ≡ some s'
      → length (entries s') ≡ length (put Text-discrete k v (entries s))
  length-entries-put k v s s' e =
      length_of_get Text-discrete _ _ (entries-IsMap s')
        (put-IsMap Text-discrete k v (entries s) (entries-IsMap s))
        λ j. rw (
          get-entries j s',
          look-set j k v s s' e,
          get-put Text-discrete j k v (entries s),
          get-entries j s,
        )

  pub length-set_new :
      (k : Text) (v : CurrencyPairState) (s s' : c.Store)
      → look k s ≡ none
      → set k v s ≡ some s'
      → length (entries s') ≡ length (entries s) + 1
  length-set_new k v s s' h e = omega (
    arith,
    length-entries-put k v s s' e,
    length-put_new Text-discrete k v (entries s) (get-entries k s ∙ h),
  )

  pub length-set_old :
      (k : Text) (v : CurrencyPairState) (s s' : c.Store)
      → look k s ≢ none
      → set k v s ≡ some s'
      → length (entries s') ≡ length (entries s)
  length-set_old k v s s' h e = omega (
    arith,
    length-entries-put k v s s' e,
    length-put_old Text-discrete k v (entries s) (λ q. h (sym (get-entries k s) ∙ q)),
  )

  pub length-remove :
      (k : Text) (s : c.Store)
      → look k s ≢ none
      → length (entries s) ≡ length (entries (remove k s)) + 1
  length-remove k s h =
      let same =
        length_of_get Text-discrete _ _ (entries-IsMap (remove k s))
          (delete-IsMap Text-discrete k (entries s) (entries-IsMap s))
          λ j. rw (
            get-entries j (remove k s),
            look-remove j k s,
            get-delete Text-discrete j k (entries s),
            get-entries j s,
          ) in
      omega (
        arith,
        same,
        length-delete Text-discrete k (entries s) (entries-IsMap s)
            (λ q. h (sym (get-entries k s) ∙ q)),
      )

  pub free_next : (k : Text) (s : c.Store) (n : ℕ) → HasIds s n → IsFreeId (λ j. look j s) k n
  free_next k s n h j w e ne q = absurd (omega (arith, h.fresh j w e))

  pub free_own :
      (k : Text) (v : CurrencyPairState) (s : c.Store) (n : ℕ)
      → HasIds s n
      → look k s ≡ some v
      → IsFreeId (λ j. look j s) k v.id
  free_own k v s n h e j w e' ne q = ne (h.distinct j k w v e' e q)

  -- A write under an id that no other key has keeps the ids in order.
  pub set-HasIds :
      (k : Text) (v : CurrencyPairState) (s s' : c.Store) (m n : ℕ)
      → set k v s ≡ some s'
      → IsFreeId (λ j. look j s) k v.id
      → v.id < n
      → m ≤ n
      → HasIds s m
      → HasIds s' n
  set-HasIds k v s s' m n e f lt le h = record {
    fresh = λ j w p. ground (arith, look-set j k v s s' e, h.fresh j w);
    distinct = λ i j u w p q r.
        ground
          (arith, look-set i k v s s' e, look-set j k v s s' e, h.distinct i j u w, f i u, f j w);
  }

  pub remove-HasIds : (k : Text) (s : c.Store) (n : ℕ) → HasIds s n → HasIds (remove k s) n
  remove-HasIds k s n h = record {
    fresh = λ j w p. ground (arith, look-remove j k s, h.fresh j w);
    distinct =
        λ i j u w p q r. ground (arith, look-remove i k s, look-remove j k s, h.distinct i j u w);
  }
