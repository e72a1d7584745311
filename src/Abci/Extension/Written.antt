-- ===== src/Abci/Extension/Written.antt =====
-- What a vote extension says (`transformOracleServicePrices`, abci/ve/vote_extension.go): a
-- specification without caches, for any strategy whose caches only remember.
use orynx.Prelude.{
  ℕ, ◌≡◌, ◌⊎◌, refl, [], ◌∷◌, Option, none, some, Text, Text-discrete, Result, ok, err, arith, inl,
  inr, Option-cases, Result-cases, ℕ_discrete,
}
use orynx.Prelude.Action.{lift}
use orynx.Prelude.Dict.{Dict, get, get-put, IsMap, put-IsMap}
use orynx.Prelude.Int.{ℤ}
use orynx.CurrencyPair.{CurrencyPair, from_string}
use orynx.Abci.{Context}
use orynx.Abci.Strategies.{
  OracleReader, CurrencyPairStrategy, Gob, IdCache, default_strategy, default_id,
  default_encoded_price,
}
use orynx.Abci.Votes.Reading.{value}
use orynx.Abci.Extension.{
  ExtendError, write_entry, add_entry, transform_prices, bad_pair, bad_decimal,
}
use orynx.Abci.Extension.Decimal.{parse_decimal}

-- A strategy, at one height and on one state, whose ids and encodings do not depend on what it has
-- cached.
pub record WriteMeaning {W : Type 0} (s : CurrencyPairStrategy W) (ctx : Context) (w : W)
    : Type 1 where
  pub IsGood : s.Cache → Type 0
  pub id_at : CurrencyPair → Option ℕ
  pub encoded_at : CurrencyPair → ℤ → Option Text
  pub id_means :
      (cp : CurrencyPair) (c : s.Cache)
      → IsGood c
      → (value (s.id ctx cp w c).0 ≡ id_at cp) × IsGood (s.id ctx cp w c).1
  pub encode_means :
      (cp : CurrencyPair) (price : ℤ) (c : s.Cache)
      → IsGood c
      → (value (s.get_encoded_price ctx cp price w c).0 ≡ encoded_at cp price)
        × IsGood (s.get_encoded_price ctx cp price w c).1

pub default_id_lem :
    {W : Type 0} (k : OracleReader W) (ctx : Context) (cp : CurrencyPair) (w : W) (c : IdCache)
    → value (default_id k ctx cp w c).0 ≡ k.id_of cp w
unfolding default_id
default_id_lem k ctx cp w c = elim (Option-cases (k.id_of cp w)) [
  | inl e ↦ ground arith
  | inr (id, e) ↦ ground arith
]

pub value-lift : {S E A : Type 0} (r : Result E A) (s : S) → value (lift {S = S} r s).0 ≡ value r
value-lift (ok a) s = refl
value-lift (err e) s = refl

-- The default strategy writes ids and prices without its cache.
unfoldable pub default_writes :
    {W : Type 0} (k : OracleReader W) (gob : Gob) (ctx : Context) (w : W)
    → WriteMeaning (default_strategy k gob) ctx w
default_writes k gob ctx w = record {
  IsGood = λ c. Unit;
  id_at = λ cp. k.id_of cp w;
  encoded_at = λ cp price. value (default_encoded_price gob price);
  id_means = λ cp c g. (default_id_lem k ctx cp w c, tt);
  encode_means = λ cp price c g. (value-lift (default_encoded_price gob price) c, tt);
}

module _ {W : Type 0} {s : CurrencyPairStrategy W} {ctx : Context} {w : W}
    (m : WriteMeaning s ctx w) where
  abbrev entry_of_id : Option ℕ → Option Text → Option (ℕ × Text)
  entry_of_id none o = none
  entry_of_id (some id) none = none
  entry_of_id (some id) (some bz) = some (id, bz)

  abbrev pub written_entry : CurrencyPair → ℤ → Option (ℕ × Text)
  written_entry cp price = entry_of_id (m.id_at cp) (m.encoded_at cp price)

  abbrev pub written_prices : Dict Text Text → Dict ℕ Text → Result ExtendError (Dict ℕ Text)
  written_prices [] acc = ok acc
  written_prices ((name, decimal) ∷ prices) acc = elim (from_string name) [
    | err e ↦ err (bad_pair e)
    | ok cp ↦ elim (parse_decimal decimal) [
      | none ↦ err bad_decimal
      | some price ↦ written_prices prices (add_entry s acc (written_entry cp price))
    ]
  ]

  write_entry_lem :
      (cp : CurrencyPair) (price : ℤ) (c : s.Cache)
      → m.IsGood c
      → (value (write_entry s ctx w cp price c).0 ≡ written_entry cp price)
        × m.IsGood (write_entry s ctx w cp price c).1
  write_entry_lem cp price c g =
      let (named, g1) = m.id_means cp c g in
      let c1 = (s.id ctx cp w c).1 in
      elim (Result-cases (s.id ctx cp w c).0) [
        | inr (x, e) ↦ (ground arith, ground (arith, g1))
        | inl (id, e) ↦
            let (encoded, g2) = m.encode_means cp price c1 g1 in
            elim (Result-cases (s.get_encoded_price ctx cp price w c1).0) [
              | inr (x, d) ↦ (ground arith, ground (arith, g2))
              | inl (bz, d) ↦ (ground arith, ground (arith, g2))
            ]
      ]

  pub transform_prices_lem :
      (prices : Dict Text Text) (acc : Dict ℕ Text) (c : s.Cache)
      → m.IsGood c
      → ((transform_prices s ctx w prices acc c).0 ≡ written_prices prices acc)
        × m.IsGood (transform_prices s ctx w prices acc c).1
  transform_prices_lem [] acc c g = (refl, g)
  transform_prices_lem ((name, decimal) ∷ prices) acc c g = elim (Result-cases (from_string name)) [
    | inr (x, e) ↦ (ground arith, ground (arith, g))
    | inl (cp, e) ↦ elim (Option-cases (parse_decimal decimal)) [
      | inl d ↦ (ground arith, ground (arith, g))
      | inr (price, d) ↦
          let (same, g1) = write_entry_lem cp price c g in
          let c1 = (write_entry s ctx w cp price c).1 in
          let acc' = add_entry s acc (written_entry cp price) in
          let (rest, g2) = transform_prices_lem prices acc' c1 g1 in
          elim (Result-cases (write_entry s ctx w cp price c).0) [
            | inl (x, q) ↦ (ground (arith, rest, same), ground (arith, g2, same))
            | inr (x, q) ↦ (ground (arith, rest, same), ground (arith, g2, same))
          ]
    ]
  ]

  -- A price of the oracle service, as it is read.
  abbrev pub IsOffered : Dict Text Text → CurrencyPair → ℤ → Type 0
  IsOffered prices cp p =
      (name : Text) × (decimal : Text) × (get Text-discrete name prices ≡ some decimal)
      × (from_string name ≡ ok cp)
      × (parse_decimal decimal ≡ some p)

  -- An entry that a price of the oracle service explains.
  abbrev pub IsWritten : Dict Text Text → ℕ → Text → Type 0
  IsWritten prices id bz =
      (cp : CurrencyPair) × (p : ℤ) × IsOffered prices cp p × (written_entry cp p ≡ some (id, bz))

  earlier :
      (name : Text) (decimal : Text) (prices : Dict Text Text) (id : ℕ) (bz : Text)
      → get Text-discrete name prices ≡ none
      → IsWritten prices id bz
      → IsWritten ((name, decimal) ∷ prices) id bz
  unfolding get
  earlier name decimal prices id bz n (cp, p, (x, d, g, f, q), e) =
      (cp, p, (x, d, ground arith, f, q), e)

  written_prices-IsWritten :
      (prices : Dict Text Text) (acc : Dict ℕ Text) (id : ℕ) (bz : Text) {out : Dict ℕ Text}
      → IsMap Text-discrete prices
      → written_prices prices acc ≡ ok out
      → get ℕ_discrete id out ≡ some bz
      → (get ℕ_discrete id acc ≡ some bz) ⊎ IsWritten prices id bz
  unfolding get
  written_prices-IsWritten [] acc id bz {out} i e g = inl (ground arith)
  written_prices-IsWritten ((name, decimal) ∷ prices) acc id bz {out} i e g =
      elim (Result-cases (from_string name)) [
        | inr (x, f) ↦ absurd (ground arith)
        | inl (cp, f) ↦ elim (Option-cases (parse_decimal decimal)) [
          | inl q ↦ absurd (ground arith)
          | inr (p, q) ↦
              elim (written_prices-IsWritten prices (add_entry s acc (written_entry cp p)) id bz
                {out = out} i.1 (ground arith) g) [
                  | inr later ↦ inr (earlier name decimal prices id bz i.0 later)
                  | inl g' ↦ elim (Option-cases (written_entry cp p)) [
                    | inl n ↦ inl (ground arith)
                    | inr ((j, b), n) ↦ elim (ℕ_discrete id j) [
                      | no other ↦ inl (ground (arith, get-put ℕ_discrete id j b acc))
                      | yes same ↦ inr (
                        cp,
                        p,
                        (name, decimal, ground arith, f, q),
                        ground (arith, get-put ℕ_discrete id j b acc),
                      )
                    ]
                  ]
                ]
        ]
      ]

  pub written_prices-explained :
      (prices : Dict Text Text) (id : ℕ) (bz : Text) {out : Dict ℕ Text}
      → IsMap Text-discrete prices
      → written_prices prices [] ≡ ok out
      → get ℕ_discrete id out ≡ some bz
      → IsWritten prices id bz
  unfolding get
  written_prices-explained prices id bz {out} i e g =
      elim (written_prices-IsWritten prices [] id bz {out = out} i e g) [
        | inl n ↦ absurd (ground arith)
        | inr q ↦ q
      ]

  add_entry-IsMap :
      (acc : Dict ℕ Text) (o : Option (ℕ × Text))
      → IsMap ℕ_discrete acc
      → IsMap ℕ_discrete (add_entry s acc o)
  add_entry-IsMap acc none i = i
  add_entry-IsMap acc (some (id, bz)) i = put-IsMap ℕ_discrete id bz acc i

  pub written_prices-IsMap :
      (prices : Dict Text Text) (acc : Dict ℕ Text) {out : Dict ℕ Text}
      → IsMap ℕ_discrete acc
      → written_prices prices acc ≡ ok out
      → IsMap ℕ_discrete out
  written_prices-IsMap [] acc {out} i e = ground (arith, i)
  written_prices-IsMap ((name, decimal) ∷ prices) acc {out} i e =
      elim (Result-cases (from_string name)) [
        | inr (x, f) ↦ absurd (ground arith)
        | inl (cp, f) ↦ elim (Option-cases (parse_decimal decimal)) [
          | inl q ↦ absurd (ground arith)
          | inr (p, q) ↦
              written_prices-IsMap prices (add_entry s acc (written_entry cp p)) {out = out}
                (add_entry-IsMap acc (written_entry cp p) i) (ground arith)
        ]
      ]
