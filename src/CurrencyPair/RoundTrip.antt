-- ===== src/CurrencyPair/RoundTrip.antt =====
-- `CurrencyPairFromString` and `CurrencyPair.String` (pkg/types/currency_pair.go).
use orynx.Prelude.{
  ◌≡◌, refl, ap, false, List, [], ◌∷◌, ◌++◌, Text, ok, arith, some, Option-cases, inl, inr,
}
use orynx.CurrencyPair.{
  CurrencyPair, to_upper, upper_byte, validate_basic, to_string, from_string, pair_separator,
  contains, split, two_fields,
}
use orynx.CurrencyPair.Split.{split_clean, split-append, join, join-split}
use orynx.CurrencyPair.Format.{validate_basic_iff}

split-to_string :
    (cp : CurrencyPair)
    → contains pair_separator cp.base ≡ false
    → contains pair_separator cp.quote ≡ false
    → split pair_separator (to_string cp) ≡ cp.base ∷ cp.quote ∷ []
unfolding to_string
split-to_string cp hb hq =
    ground (
      arith,
      split-append pair_separator cp.base cp.quote hb,
      split_clean pair_separator cp.quote hq,
    )

-- A valid pair whose fields hold no slash is read back from its own string.
pub from_string-to_string :
    (cp : CurrencyPair)
    → validate_basic cp ≡ ok tt
    → contains pair_separator cp.base ≡ false
    → contains pair_separator cp.quote ≡ false
    → from_string (to_string cp) ≡ ok cp
unfolding from_string
from_string-to_string cp v hb hq =
    let w = (validate_basic_iff cp).0 v in ground (arith, w, split-to_string cp hb hq)

pub to_upper-append : (s t : Text) → to_upper (s ++ t) ≡ to_upper s ++ to_upper t
unfolding to_upper
to_upper-append [] t = refl
to_upper-append (c ∷ s) t = ap (◌∷◌ (upper_byte c)) (to_upper-append s t)

two_fields-join :
    (fs : List Text) (t : Text × Text)
    → two_fields fs ≡ some t
    → join pair_separator fs ≡ t.0 ++ pair_separator ∷ t.1
two_fields-join [] t h = cc
two_fields-join (a ∷ []) t h = cc
two_fields-join (a ∷ b ∷ []) t h = ground arith
two_fields-join (a ∷ b ∷ c ∷ r) t h = cc

pub slash_upper : (t : Text) → to_upper (pair_separator ∷ t) ≡ pair_separator ∷ to_upper t
unfolding to_upper
slash_upper t = refl

-- What the parser accepts is a valid pair, and its string is the input in upper case.
pub from_string_canonical :
    (s : Text) {cp : CurrencyPair}
    → from_string s ≡ ok cp
    → (validate_basic cp ≡ ok tt) × (to_string cp ≡ to_upper s)
unfolding from_string to_string
from_string_canonical s h = elim (Option-cases (two_fields (split pair_separator s))) [
  | inl e ↦ ground arith
  | inr (t, e) ↦ ground (
    arith,
    two_fields-join (split pair_separator s) t e,
    join-split pair_separator s,
    to_upper-append t.0 (pair_separator ∷ t.1),
    slash_upper t.1,
  )
]
