-- ===== src/OracleKeeper/Steps.antt =====
-- Runs of the oracle module (x/oracle/keeper): the calls that change its state once genesis has set it,
-- in any order. Prices are set for tracked pairs, as the price applier does.
use orynx.Prelude.{
  ◌≤◌, ◌<◌, ◌≡◌, ◌≢◌, ◌∙◌, refl, sym, ap, none, some, Text, Text-discrete, Result, arith, length,
  inl, inr, Option-cases,
}
use mathlib.Core.Path.{subst}
use orynx.CurrencyPair.{CurrencyPair, to_string}
use orynx.OracleKeeper.{
  PairStore, CurrencyPairState, QuotePrice, State, KeeperError, u64_mod, find, create_currency_pair,
  remove_currency_pair, set_price_for_currency_pair, begin_blocker,
}
use orynx.OracleKeeper.Invariant.{Inv, HasRoom}
use orynx.OracleKeeper.Prices.{set_price-Inv}
use orynx.OracleKeeper.Counting.{
  create_currency_pair-Inv, create_currency_pair_exists, remove_currency_pair-Inv,
  remove_currency_pair_absent,
}

module _ (c : PairStore) where
  -- One call, failed calls included. The counters stay in their range.
  pub data Step : State c.Store → State c.Store → Type 0 where
    begins :
        (s s' : State c.Store) (r : Result KeeperError (Unit {0}))
        → begin_blocker c s ≡ (r, s')
        → Step s s'
    creates :
        (cp : CurrencyPair) (s s' : State c.Store) (r : Result KeeperError (Unit {0}))
        → HasRoom c s
        → create_currency_pair c cp s ≡ (r, s')
        → Step s s'
    removes :
        (cp : CurrencyPair) (s s' : State c.Store) (r : Result KeeperError (Unit {0}))
        → length (c.entries s.store) < u64_mod
        → remove_currency_pair c cp s ≡ (r, s')
        → Step s s'
    prices :
        (cp : CurrencyPair) (qp : QuotePrice) (s s' : State c.Store)
        (r : Result KeeperError (Unit {0}))
        → find c cp s ≢ none
        → set_price_for_currency_pair c cp qp s ≡ (r, s')
        → Step s s'

  pub data Reach (s : State c.Store) : State c.Store → Type 0 where
    here : Reach s s
    next : {t u : State c.Store} → Reach s t → Step t u → Reach s u

  -- Ids are not given twice: ids that were passed at first belong to the keys that had them then.
  pub record KeepsIds (s s' : State c.Store) : Type 0 where
    pub grows : s.next_id ≤ s'.next_id
    pub same :
        (k : Text) (v' : CurrencyPairState)
        → c.look k s'.store ≡ some v'
        → v'.id < s.next_id
        → (v : CurrencyPairState) × (c.look k s.store ≡ some v) × (v.id ≡ v'.id)

  KeepsIds-refl : (s : State c.Store) → KeepsIds s s
  KeepsIds-refl s = record { grows = omega arith; same = λ k v e h. (v, e, refl) }

  KeepsIds-trans : (s t u : State c.Store) → KeepsIds s t → KeepsIds t u → KeepsIds s u
  KeepsIds-trans s t u a b = record {
    grows = omega (arith, a.grows, b.grows);
    same = λ k v e h.
        let (w, f, q) = b.same k v e (omega (arith, a.grows)) in
        let (x, g, p) = a.same k w f (ground (arith, q)) in (x, g, p ∙ q);
  }

  abbrev Kept : State c.Store → State c.Store → Type 0
  Kept s s' = Inv c s' × KeepsIds s s'

  -- A step that leaves every key but one as it was.
  one_key :
      (s s' : State c.Store) (k : Text)
      → s.next_id ≤ s'.next_id
      → ((j : Text) → j ≢ k → c.look j s'.store ≡ c.look j s.store)
      → ((v' : CurrencyPairState)
          → c.look k s'.store ≡ some v'
          → v'.id < s.next_id
          → (v : CurrencyPairState) × (c.look k s.store ≡ some v) × (v.id ≡ v'.id))
      → KeepsIds s s'
  one_key s s' k g others own = record {
    grows = g;
    same = λ j v' e h. elim (Text-discrete j k) [
      | no n ↦ (v', sym (others j n) ∙ e, refl)
      | yes p ↦
          let (v, f, q) = own v' (ap (λ x. c.look x s'.store) (sym p) ∙ e) h in
          (v, ap (λ x. c.look x s.store) p ∙ f, q)
    ];
  }

  created-Kept :
      (cp : CurrencyPair) (s : State c.Store)
      → Inv c s
      → HasRoom c s
      → Kept s (create_currency_pair c cp s).1
  created-Kept cp s i room = elim (Option-cases (find c cp s)) [
    | inr (v, there) ↦ rw (create_currency_pair_exists c cp s (ground arith)) (i, KeepsIds-refl s)
    | inl absent ↦
        let (t, f, i', d) = create_currency_pair-Inv c cp s i room absent in
        rw f (
          i',
          one_key s t (to_string cp) (omega (arith, d.next)) d.others
              (λ v e h. absurd (ground (arith, d.entry))),
        )
  ]

  removed-Kept :
      (cp : CurrencyPair) (s : State c.Store)
      → Inv c s
      → length (c.entries s.store) < u64_mod
      → Kept s (remove_currency_pair c cp s).1
  removed-Kept cp s i room = elim (Option-cases (find c cp s)) [
    | inl absent ↦ rw (remove_currency_pair_absent c cp s absent) (i, KeepsIds-refl s)
    | inr (v, there) ↦
        let (t, f, i', d) = remove_currency_pair-Inv c cp s i room (ground arith) in
        rw f (
          i',
          one_key s t (to_string cp) (omega (arith, d.next)) d.others
              (λ w e h. absurd (ground (arith, d.entry))),
        )
  ]

  priced-Kept :
      (cp : CurrencyPair) (qp : QuotePrice) (s : State c.Store)
      → Inv c s
      → find c cp s ≢ none
      → Kept s (set_price_for_currency_pair c cp qp s).1
  priced-Kept cp qp s i known = elim (Option-cases (find c cp s)) [
    | inl absent ↦ absurd (known absent)
    | inr (v, there) ↦
        let (t, f, i', d) = set_price-Inv c cp qp s i there in
        rw f (
          i',
          one_key s t (to_string cp) (omega (arith, d.next)) d.others
              (λ w e h. (v, there, ground (arith, d.entry))),
        )
  ]

  Step-Kept : {s s' : State c.Store} → Step s s' → Inv c s → Kept s s'
  unfolding begin_blocker
  Step-Kept (begins s s' r e) i = subst (Kept s) (ap (λ p. p.1) e) (
    record { ids = i.ids; counted = i.counted; removes = λ q. ground arith },
    record { grows = omega arith; same = λ k v f h. (v, f, refl) },
  )
  Step-Kept (creates cp s s' r room e) i =
      subst (Kept s) (ap (λ p. p.1) e) (created-Kept cp s i room)
  Step-Kept (removes cp s s' r room e) i =
      subst (Kept s) (ap (λ p. p.1) e) (removed-Kept cp s i room)
  Step-Kept (prices cp qp s s' r there e) i =
      subst (Kept s) (ap (λ p. p.1) e) (priced-Kept cp qp s i there)

  -- In every run of block begins, creations, removals and price updates of tracked pairs, where creations
  -- and removals find room in the counters, the invariant holds, and no id is given twice: a pair whose id
  -- was given out before the run had that id at its start.
  pub Reach-KeepsIds : {s s' : State c.Store} → Reach s s' → Inv c s → Inv c s' × KeepsIds s s'
  Reach-KeepsIds {s} {s'} here i = (i, KeepsIds-refl s)
  Reach-KeepsIds {s} {s'} (next {t} {u} p q) i =
      let (i', a) = Reach-KeepsIds {s = s} {s' = t} p i in
      let (i'', b) = Step-Kept q i' in (i'', KeepsIds-trans s t u a b)
