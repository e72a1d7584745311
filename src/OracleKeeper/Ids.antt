-- ===== src/OracleKeeper/Ids.antt =====
-- The ids of the tracked pairs (x/oracle/keeper/keeper.go): how many there can be.
use orynx.Prelude.{
  ℕ, ◌≤◌, ◌≡◌, ◌≢◌, refl, ◌∙◌, [], ◌∷◌, Text, Text-discrete, none, some, arith, length, ℕ_discrete,
}
use orynx.Prelude.Dict.{Dict, get, IsMap}
use orynx.Prelude.Counts.{length_mono}
use orynx.OracleKeeper.{PairStore, CurrencyPairState, State, Entries}
use orynx.OracleKeeper.Invariant.{Inv}

-- The keys of a store by their ids.
abbrev by_id : Entries → Dict ℕ Text
by_id [] = []
by_id ((k, v) ∷ m) = (v.id, k) ∷ by_id m

abbrev HasDistinctIds : Entries → Type 0
HasDistinctIds m =
    (j k : Text) (v w : CurrencyPairState)
    → get Text-discrete j m ≡ some v
    → get Text-discrete k m ≡ some w
    → v.id ≡ w.id
    → j ≡ k

by_id_fresh :
    (i : ℕ) (m : Entries)
    → IsMap Text-discrete m
    → ((k : Text) (v : CurrencyPairState) → get Text-discrete k m ≡ some v → v.id ≢ i)
    → get ℕ_discrete i (by_id m) ≡ none
unfolding get
by_id_fresh i [] p h = refl
by_id_fresh i ((k, v) ∷ m) p h =
    ground (arith, h k v, by_id_fresh i m p.1 (λ j w e. h j w (ground (arith, p.0))))

by_id-IsMap : (m : Entries) → IsMap Text-discrete m → HasDistinctIds m → IsMap ℕ_discrete (by_id m)
unfolding get
by_id-IsMap [] i d = tt
by_id-IsMap ((k, v) ∷ m) i d = (
  by_id_fresh v.id m i.1
      (λ j w e q. ground (arith, d j k w v (ground (arith, i.0)) (ground arith) q, i.0)),
  by_id-IsMap m i.1 (λ j l w x e f q. d j l w x (ground (arith, i.0)) (ground (arith, i.0)) q),
)

by_id_found :
    (k : Text) (v : CurrencyPairState) (m : Entries)
    → get Text-discrete k m ≡ some v
    → get ℕ_discrete v.id (by_id m) ≢ none
unfolding get
by_id_found k v [] e = absurd (ground arith)
by_id_found k v ((j, w) ∷ m) e = ground (arith, by_id_found k v m)

length-by_id : (m : Entries) → length (by_id m) ≡ length m
length-by_id [] = refl
length-by_id ((k, v) ∷ m) = omega (arith, length-by_id m)

module _ (c : PairStore) where
  -- This is the id of a tracked pair.
  abbrev pub IsUsedId : State c.Store → ℕ → Type 0
  IsUsedId s id = (k : Text) × (v : CurrencyPairState) × (c.look k s.store ≡ some v) × (v.id ≡ id)

  -- A map whose keys are ids of tracked pairs has no more keys than there are pairs.
  pub length-used_ids :
      (ps : Dict ℕ Text) (s : State c.Store)
      → Inv c s
      → IsMap ℕ_discrete ps
      → ((id : ℕ) → get ℕ_discrete id ps ≢ none → IsUsedId s id)
      → length ps ≤ length (c.entries s.store)
  length-used_ids ps s i p h =
      let m = c.entries s.store in
      let distinct : HasDistinctIds m = λ j k v w e f q.
        i.ids.distinct j k v w (ground (arith, c.get-entries j s.store))
          (ground (arith, c.get-entries k s.store)) q in
      let found : (id : ℕ) → get ℕ_discrete id ps ≢ none → get ℕ_discrete id (by_id m) ≢ none =
        λ id n.
          let (k, v, e, q) = h id n in
          ground (arith, by_id_found k v m (c.get-entries k s.store ∙ e), q) in
      omega (
        arith,
        length_mono ℕ_discrete ps (by_id m) p (by_id-IsMap m (c.entries-IsMap s.store) distinct)
            found,
        length-by_id m,
      )
