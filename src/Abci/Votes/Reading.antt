-- ===== src/Abci/Votes/Reading.antt =====
-- What the votes of a proposal say when they are read without caches: a specification of
-- abci/strategies/aggregator/vote_aggregator.go, for any strategy whose caches only remember.
use orynx.Prelude.{
  ℕ, ◌≡◌, ◌∙◌, ap, refl, List, [], ◌∷◌, Option, none, some, Text, Text-discrete, Result, ok, err,
  length, ltb, ◌==◌, if◌then◌else◌, arith, inl, inr, Result-cases, Bool-cases,
}
use orynx.Prelude.Dict.{Dict, put}
use orynx.Prelude.Int.{ℤ}
use orynx.CurrencyPair.{CurrencyPair, CurrencyPair-discrete}
use orynx.Median.{Prices}
use orynx.Abci.{Context, maximum_price_size}
use orynx.Abci.Strategies.{CurrencyPairStrategy, StrategyError}
use orynx.Abci.Votes.{Vote, read_price, read_prices, store_price}

abbrev pub value {ℓ κ} : {E : Type ℓ} {A : Type κ} → Result E A → Option A
value (ok a) = some a
value (err e) = none

pub value-some {ℓ κ} :
    {E : Type ℓ} {A : Type κ} (r : Result E A) {a : A} → value r ≡ some a → r ≡ ok a
value-some (ok b) {a} e = ground arith
value-some (err x) {a} e = absurd (ground arith)

-- A strategy, at one height and on one state, whose answers do not depend on what it has cached.
pub record Meaning {W : Type 0} (s : CurrencyPairStrategy W) (ctx : Context) (w : W) : Type 1 where
  pub IsGood : s.Cache → Type 0
  pub pair_at : ℕ → Option CurrencyPair
  pub price_at : CurrencyPair → Text → Option ℤ
  pub from_id_means :
      (id : ℕ) (c : s.Cache)
      → IsGood c
      → (value (s.from_id ctx id w c).0 ≡ pair_at id) × IsGood (s.from_id ctx id w c).1
  pub decode_means :
      (cp : CurrencyPair) (bz : Text) (c : s.Cache)
      → IsGood c
      → (value (s.get_decoded_price ctx cp bz w c).0 ≡ price_at cp bz)
        × IsGood (s.get_decoded_price ctx cp bz w c).1

module _ {W : Type 0} {s : CurrencyPairStrategy W} {ctx : Context} {w : W}
    (m : Meaning s ctx w) where
  abbrev pub price_of_pair : Text → Option CurrencyPair → Option (CurrencyPair × ℤ)
  price_of_pair bz none = none
  price_of_pair bz (some cp) = elim (m.price_at cp bz) [ none ↦ none | some p ↦ some (cp, p) ]

  -- One price of a vote extension, if it can be read.
  abbrev pub reported_price : ℕ → Text → Option (CurrencyPair × ℤ)
  reported_price id bz =
      if ltb maximum_price_size (length bz) then none else price_of_pair bz (m.pair_at id)

  abbrev pub store_reported : Prices → Option (CurrencyPair × ℤ) → Prices
  store_reported prices none = prices
  store_reported prices (some (cp, p)) = put CurrencyPair-discrete cp (some p) prices

  abbrev pub reported_prices : Dict ℕ Text → Prices → Prices
  reported_prices [] prices = prices
  reported_prices ((id, bz) ∷ ps) prices =
      reported_prices ps (store_reported prices (reported_price id bz))

  abbrev pub reported_vote : Text → Dict ℕ Text → Dict Text Prices → Dict Text Prices
  reported_vote address ps reports =
      if length ps == 0 then reports else put Text-discrete address (reported_prices ps []) reports

  -- The prices of each validator, those of its last vote that has any.
  abbrev pub reports : (Text → Text) → List Vote → Dict Text Prices → Dict Text Prices
  reports address_string [] acc = acc
  reports address_string (vote ∷ votes) acc =
      reports address_string votes
        (reported_vote (address_string vote.cons_address) vote.oracle_vote_extension.prices acc)

  read_price_lem :
      (id : ℕ) (bz : Text) (c : s.Cache)
      → m.IsGood c
      → (value (read_price s ctx w id bz c).0 ≡ reported_price id bz)
        × m.IsGood (read_price s ctx w id bz c).1
  read_price_lem id bz c g =
      let (named, g1) = m.from_id_means id c g in
      let c1 = (s.from_id ctx id w c).1 in
      elim (Bool-cases (ltb maximum_price_size (length bz))) [
        | inl long ↦ rw long (refl, g)
        | inr short ↦ elim (Result-cases (s.from_id ctx id w c).0) [
          | inr (x, e) ↦ (ground arith, ground (arith, g1))
          | inl (cp, e) ↦
              let (decoded, g2) = m.decode_means cp bz c1 g1 in
              elim (Result-cases (s.get_decoded_price ctx cp bz w c1).0) [
                | inr (x, d) ↦ (ground arith, ground (arith, g2))
                | inl (p, d) ↦ (ground arith, ground (arith, g2))
              ]
        ]
      ]

  store_price_lem :
      (prices : Prices) (r : Result StrategyError (CurrencyPair × ℤ))
      → store_price s prices r ≡ store_reported prices (value r)
  store_price_lem prices (ok (cp, p)) = refl
  store_price_lem prices (err e) = refl

  pub read_prices_lem :
      (ps : Dict ℕ Text) (prices : Prices) (c : s.Cache)
      → m.IsGood c
      → ((read_prices s ctx w ps prices c).0 ≡ reported_prices ps prices)
        × m.IsGood (read_prices s ctx w ps prices c).1
  read_prices_lem [] prices c g = (refl, g)
  read_prices_lem ((id, bz) ∷ ps) prices c g =
      let (r, c1) = read_price s ctx w id bz c in
      let (same, g1) = read_price_lem id bz c g in
      let (rest, g2) = read_prices_lem ps (store_price s prices r) c1 g1 in
      (
        rest ∙ ap (reported_prices ps) (store_price_lem prices r ∙ ap (store_reported prices) same),
        g2,
      )
