-- ===== src/Abci/Extension/RoundTrip.antt =====
-- From the oracle service of one validator (abci/ve/vote_extension.go) to the prices that the others read
-- from its vote (abci/strategies/aggregator/vote_aggregator.go).
use orynx.Prelude.{
  ℕ, ◌≤◌, ◌≡◌, ◌∙◌, sym, [], ◌∷◌, Option, none, some, Text, Text-discrete, ok, arith, length, inl,
  inr, Option-cases, Result-cases, ℕ_discrete,
}
use mathlib.Core.Path.{subst}
use orynx.Prelude.Dict.{Dict, get, get-put, IsMap}
use orynx.Prelude.Int.{ℤ}
use orynx.CurrencyPair.{CurrencyPair, CurrencyPair-discrete, from_string}
use orynx.Abci.{Context, maximum_price_size}
use orynx.Abci.Strategies.{CurrencyPairStrategy}
use orynx.Abci.Votes.Reading.{Meaning, read_prices_lem, reported_price, reported_prices}
use orynx.Abci.Votes.Reported.{HasOneId, reported_prices_iff}
use orynx.Abci.Votes.{read_prices}
use orynx.Abci.Extension.{add_entry, transform_prices}
use orynx.Abci.Extension.Decimal.{parse_decimal}
use orynx.Abci.Extension.Written.{
  WriteMeaning, transform_prices_lem, written_entry, written_prices, IsOffered, IsWritten,
  written_prices-explained, written_prices-IsMap,
}
use orynx.Abci.Extension.Accepted.{HasShortPrices, entry_parts}

module _ {W : Type 0} {s : CurrencyPairStrategy W} {ctx : Context} {w : W}
    (m : WriteMeaning s ctx w) where
  abbrev HasEntry : ℕ → Dict ℕ Text → Type 0
  HasEntry id ps = (bz : Text) × (get ℕ_discrete id ps ≡ some bz)

  add_entry-HasEntry :
      (id : ℕ) (ps : Dict ℕ Text) (o : Option (ℕ × Text))
      → HasEntry id ps
      → HasEntry id (add_entry s ps o)
  add_entry-HasEntry id ps none h = h
  add_entry-HasEntry id ps (some (j, b)) (bz, e) = elim (ℕ_discrete id j) [
    | yes same ↦ (b, ground (arith, get-put ℕ_discrete id j b ps))
    | no other ↦ (bz, ground (arith, get-put ℕ_discrete id j b ps))
  ]

  written_prices-keeps :
      (id : ℕ) (offered : Dict Text Text) (acc : Dict ℕ Text) {out : Dict ℕ Text}
      → written_prices m offered acc ≡ ok out
      → HasEntry id acc
      → HasEntry id out
  written_prices-keeps id [] acc {out} e h = ground (arith, h)
  written_prices-keeps id ((name, decimal) ∷ offered) acc {out} e h =
      elim (Result-cases (from_string name)) [
        | inr (x, f) ↦ absurd (ground arith)
        | inl (cp, f) ↦ elim (Option-cases (parse_decimal decimal)) [
          | inl q ↦ absurd (ground arith)
          | inr (p, q) ↦
              written_prices-keeps id offered (add_entry s acc (written_entry m cp p)) {out = out}
                (ground arith) (add_entry-HasEntry id acc (written_entry m cp p) h)
        ]
      ]

  written_prices-adds :
      (cp : CurrencyPair) (p : ℤ) (id : ℕ) (bz : Text) (offered : Dict Text Text)
      (acc : Dict ℕ Text) {out : Dict ℕ Text}
      → written_prices m offered acc ≡ ok out
      → IsOffered m offered cp p
      → written_entry m cp p ≡ some (id, bz)
      → HasEntry id out
  unfolding get
  written_prices-adds cp p id bz [] acc {out} e (name, d, g, f, q) t = absurd (ground arith)
  written_prices-adds cp p id bz ((name', d') ∷ offered) acc {out} e (name, d, g, f, q) t =
      elim (Result-cases (from_string name')) [
        | inr (x, f') ↦ absurd (ground arith)
        | inl (cp', f') ↦ elim (Option-cases (parse_decimal d')) [
          | inl q' ↦ absurd (ground arith)
          | inr (p', q') ↦ elim (Text-discrete name name') [
            | no other ↦
                written_prices-adds cp p id bz offered (add_entry s acc (written_entry m cp' p'))
                  {out = out} (ground arith) (name, d, ground arith, f, q) t
            | yes same ↦
                written_prices-keeps id offered (add_entry s acc (written_entry m cp' p'))
                  {out = out} (ground arith) (bz, ground (arith, get-put ℕ_discrete id id bz acc))
          ]
        ]
      ]

-- One validator writes with `m`, another one reads with `r`.
module _ {W : Type 0} {s : CurrencyPairStrategy W} {ctx : Context} {w : W}
    (m : WriteMeaning s ctx w) {s' : CurrencyPairStrategy W} {ctx' : Context} {w' : W}
    (r : Meaning s' ctx' w') where
  -- The reader resolves each id that the writer uses for an offered pair, and decodes what the writer
  -- encodes.
  pub record Agree (offered : Dict Text Text) : Type 0 where
    pub ids :
        (cp : CurrencyPair) (p : ℤ) (id : ℕ)
        → IsOffered m offered cp p
        → m.id_at cp ≡ some id
        → r.pair_at id ≡ some cp
    pub prices :
        (cp : CurrencyPair) (p : ℤ) (bz : Text)
        → m.encoded_at cp p ≡ some bz
        → r.price_at cp bz ≡ some p

  reported_written :
      (offered : Dict Text Text) (g : Agree offered) (cp : CurrencyPair) (p : ℤ) (id : ℕ)
      (bz : Text)
      → IsOffered m offered cp p
      → length bz ≤ maximum_price_size
      → written_entry m cp p ≡ some (id, bz)
      → reported_price r id bz ≡ some (cp, p)
  reported_written offered g cp p id bz o short e =
      let (i, d) = entry_parts m cp p {id = id} {bz = bz} e in
      ground (arith, g.ids cp p id o i, g.prices cp p bz d)

  -- What is read from an entry is what was written there.
  read_back :
      (offered : Dict Text Text) (g : Agree offered) (cp : CurrencyPair) (p : ℤ) (id : ℕ)
      (bz : Text)
      → HasShortPrices m offered
      → IsWritten m offered id bz
      → reported_price r id bz ≡ some (cp, p)
      → IsOffered m offered cp p
  read_back offered g cp p id bz short (cp', q, o, t) reported =
      let (i, d) = entry_parts m cp' q {id = id} {bz = bz} t in
      let there = reported_written offered g cp' q id bz o (short cp' q bz o d) t in
      let same_pair : cp' ≡ cp = ground arith in
      let same_price : q ≡ p = ground arith in
      subst (λ x. IsOffered m offered cp x) same_price
        (subst (λ x. IsOffered m offered x q) same_pair o)

  written_reported :
      (offered : Dict Text Text) (g : Agree offered) (cp : CurrencyPair) (p : ℤ) (id : ℕ)
      (bz b : Text)
      → IsOffered m offered cp p
      → HasShortPrices m offered
      → written_entry m cp p ≡ some (id, bz)
      → IsWritten m offered id b
      → (q : ℤ) × (reported_price r id b ≡ some (cp, q)) × IsOffered m offered cp q
  written_reported offered g cp p id bz b own short t (cp', q, o, t') =
      let (i, d) = entry_parts m cp p {id = id} {bz = bz} t in
      let (i', d') = entry_parts m cp' q {id = id} {bz = b} t' in
      let there = reported_written offered g cp' q id b o (short cp' q b o d') t' in
      let same : cp' ≡ cp = ground (arith, g.ids cp p id own i, g.ids cp' q id o i') in
      (q, ground arith, subst (λ x. IsOffered m offered x q) same o)

  module _ (offered : Dict Text Text) {entries : Dict ℕ Text} where
    pub reported_prices-written_prices :
        Agree offered
        → HasOneId r
        → IsMap Text-discrete offered
        → HasShortPrices m offered
        → written_prices m offered [] ≡ ok entries
        → ((cp : CurrencyPair) (p : ℤ)
            → get CurrencyPair-discrete cp (reported_prices r entries []) ≡ some (some p)
            → IsOffered m offered cp p)
          × ((cp : CurrencyPair) (p : ℤ) (id : ℕ) (bz : Text)
              → IsOffered m offered cp p
              → written_entry m cp p ≡ some (id, bz)
              → (q : ℤ) × (get CurrencyPair-discrete cp (reported_prices r entries [])
                  ≡ some (some q))
                × IsOffered m offered cp q)
    reported_prices-written_prices g one i short e =
        let maps = written_prices-IsMap m offered [] {out = entries} tt e in
        let said : (id : ℕ) (bz : Text)
            → get ℕ_discrete id entries ≡ some bz
            → IsWritten m offered id bz =
          λ id bz. written_prices-explained m offered id bz {out = entries} i e in
        (
          λ cp p read.
              let (id, bz, there, reported) =
                (reported_prices_iff r entries cp p one maps).0 read in
              read_back offered g cp p id bz short (said id bz there) reported,
          λ cp p id bz o t.
              let (b, there) = written_prices-adds m cp p id bz offered [] {out = entries} e o t in
              let (q, reported, o') =
                written_reported offered g cp p id bz b o short t (said id b there) in
              (q, (reported_prices_iff r entries cp q one maps).1 (id, b, there, reported), o'),
        )

    -- The prices that the others read from a vote extension are those of the validator's oracle service:
    -- if the caches are good, the reader resolves the ids of offered pairs and decodes what the writer
    -- encodes, no two ids stand for the same pair, and no price has more than 33 bytes, then a price that
    -- is read for a pair was offered for that pair, and every pair whose offered price could be written
    -- has a price that was offered for it.
    pub read_prices-transform_prices :
        (c : s.Cache) (c' : s'.Cache)
        → m.IsGood c
        → r.IsGood c'
        → Agree offered
        → HasOneId r
        → IsMap Text-discrete offered
        → HasShortPrices m offered
        → (transform_prices s ctx w offered [] c).0 ≡ ok entries
        → ((cp : CurrencyPair) (p : ℤ)
            → get CurrencyPair-discrete cp (read_prices s' ctx' w' entries [] c').0 ≡ some (some p)
            → IsOffered m offered cp p)
          × ((cp : CurrencyPair) (p : ℤ) (id : ℕ) (bz : Text)
              → IsOffered m offered cp p
              → written_entry m cp p ≡ some (id, bz)
              → (q : ℤ) × (get CurrencyPair-discrete cp (read_prices s' ctx' w' entries [] c').0
                  ≡ some (some q))
                × IsOffered m offered cp q)
    read_prices-transform_prices c c' good good' g one i short e =
        rw (read_prices_lem r entries [] c' good').0 (
          reported_prices-written_prices g one i short
            (sym (transform_prices_lem m offered [] c good).0 ∙ e))
