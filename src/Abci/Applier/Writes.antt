-- ===== src/Abci/Applier/Writes.antt =====
-- The loop of `ApplyPricesFromVoteExtensions` over the pairs
-- (abci/strategies/aggregator/price_applier.go).
use orynx.Prelude.{
  ◌<◌, ◌^◌, true, false, ◌≡◌, ◌≢◌, refl, ap, sym, ◌∙◌, List, [], ◌∷◌, Option, none, some, Text, ok,
  arith, All, All-mono, All-zip, inl, inr, Bool-cases, if◌then◌else◌,
}
use orynx.Prelude.Dict.{get}
use orynx.Prelude.Int.{ℤ, pos_part}
use orynx.CurrencyPair.{CurrencyPair, CurrencyPair-discrete, to_string}
use orynx.Median.{Prices}
use orynx.OracleKeeper.{
  PairStore, CurrencyPairState, State, KeeperError, u64_inc, find, set_price_for_currency_pair,
}
use orynx.Prelude.Action.{Action, map_error}
use orynx.OracleKeeper.Invariant.{Inv}
use orynx.OracleKeeper.Prices.{set_price-Inv}
use orynx.Abci.{Context}
use orynx.Abci.Strategies.{is_negative}
use orynx.Abci.Applier.{quote_of, write_price, write_prices, is_int, write_failed}

-- No two pairs have the same string.
abbrev pub AreDistinct : List CurrencyPair → Type 0
AreDistinct [] = Unit
AreDistinct (cp ∷ cps) = All (λ x. to_string x ≢ to_string cp) cps × AreDistinct cps

-- The price, if there is one, has at most 256 bits.
abbrev pub IsStorable : Option (Option ℤ) → Type 0
IsStorable none = Unit
IsStorable (some none) = Unit
IsStorable (some (some price)) = pos_part price < 2 ^ 256

storable_int : (p : ℤ) → is_negative p ≡ false → pos_part p < 2 ^ 256 → is_int p ≡ true
unfolding is_int
storable_int p e h = ground (arith, h)

written_ok :
    {S : Type 0} (m : Action S KeeperError (Unit {0})) (s : S) {s' : S}
    → m s ≡ (ok tt, s')
    → map_error write_failed m s ≡ (ok tt, s')
written_ok m s {s'} e = ap (λ o. map_error write_failed (λ u. o) s) e

module _ (c : PairStore) (ctx : Context) where
  -- The entry of a pair after a block whose aggregated price of the pair is this.
  abbrev pub entry_after : Option (Option ℤ) → CurrencyPairState → CurrencyPairState
  entry_after none v = v
  entry_after (some none) v = v
  entry_after (some (some price)) v =
      if is_negative price
      then v
      else record { price = some (quote_of c ctx price); nonce = u64_inc v.nonce; id = v.id }

  -- One pair: its entry is the one after the block, and nothing else changes.
  pub record Written (cp : CurrencyPair) (o : Option (Option ℤ)) (v : CurrencyPairState)
      (s s' : State c.Store) : Type 0 where
    pub entry : find c cp s' ≡ some (entry_after o v)
    pub others : (k : Text) → k ≢ to_string cp → c.look k s'.store ≡ c.look k s.store

  write_price_lem :
      (cp : CurrencyPair) (o : Option (Option ℤ)) (s : State c.Store) {v : CurrencyPairState}
      → Inv c s
      → find c cp s ≡ some v
      → IsStorable o
      → (s' : State c.Store) × (write_price c ctx cp o s ≡ (ok tt, s'))
        × Inv c s'
        × Written cp o v s s'
  write_price_lem cp none s {v} i e n = (s, refl, i, record { entry = e; others = λ k n. refl })
  write_price_lem cp (some none) s {v} i e n =
      (s, refl, i, record { entry = e; others = λ k n. refl })
  write_price_lem cp (some (some p)) s {v} i e n = elim (Bool-cases (is_negative p)) [
    | inl neg ↦ (s, rw neg refl, i, record { entry = rw neg e; others = λ k n. refl })
    | inr good ↦
        let (s', r, i', u) = set_price-Inv c cp (quote_of c ctx p) s {v = v} i e in
        let fits : is_int p ≡ true = storable_int p good n in
        (
          s',
          rw (good, fits) (written_ok (set_price_for_currency_pair c cp (quote_of c ctx p)) s r),
          i',
          record { entry = rw good u.entry; others = u.others },
        )
  ]

  abbrev pub IsTracked : State c.Store → CurrencyPair → Type 0
  IsTracked s cp = (v : CurrencyPairState) × (find c cp s ≡ some v)

  -- Every pair of the list has its entry after the block, and no other key changes.
  pub record AllWritten (prices : Prices) (cps : List CurrencyPair) (s s' : State c.Store)
      : Type 0 where
    pub entries :
        All
          (λ cp.
            (v : CurrencyPairState)
            → find c cp s ≡ some v
            → find c cp s' ≡ some (entry_after (get CurrencyPair-discrete cp prices) v))
          cps
    pub others :
        (k : Text) → All (λ cp. k ≢ to_string cp) cps → c.look k s'.store ≡ c.look k s.store

  pub write_prices_lem :
      (prices : Prices) (cps : List CurrencyPair) (s : State c.Store)
      → Inv c s
      → AreDistinct cps
      → All (IsTracked s) cps
      → All (λ cp. IsStorable (get CurrencyPair-discrete cp prices)) cps
      → (s' : State c.Store) × (write_prices c ctx prices cps s ≡ (ok tt, s'))
        × Inv c s'
        × AllWritten prices cps s s'
  write_prices_lem prices [] s i d t n = (s, refl, i, record { entries = tt; others = λ k n. refl })
  write_prices_lem prices (cp ∷ cps) s i d t n =
      let (v, e) = t.0 in
      let o = get CurrencyPair-discrete cp prices in
      let (s1, r1, i1, w1) = write_price_lem cp o s {v = v} i e n.0 in
      let tracked =
        All-zip {R = IsTracked s1} cps (λ x u (w, q). (w, w1.others (to_string x) u ∙ q)) d.0 t.1 in
      let apart : All (λ x. to_string cp ≢ to_string x) cps =
        All-mono cps (λ x u q. u (sym q)) d.0 in
      let (s2, r2, i2, w2) = write_prices_lem prices cps s1 i1 d.1 tracked n.1 in
      (
        s2,
        ground (arith, r1, r2),
        i2,
        record {
          entries = (
            λ w q. ground (arith, w2.others (to_string cp) apart, w1.entry, e, q),
            All-zip cps (λ x u f w q. f w (w1.others (to_string x) u ∙ q)) d.0 w2.entries,
          );
          others = λ k u. w2.others k u.1 ∙ w1.others k u.0;
        },
      )
