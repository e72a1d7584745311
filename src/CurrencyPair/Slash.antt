-- ===== src/CurrencyPair/Slash.antt =====
-- `ValidateBasic` lets a slash through, which is the separator of `CurrencyPair.String`
-- (pkg/types/currency_pair.go): the string of such a pair is ambiguous and cannot be read back.
use mathlib.Core.List.{append_assoc}
use orynx.Prelude.{
  ℕ, ◌+◌, ◌≤◌, ◌≡◌, ◌≢◌, refl, ap, List, [], ◌∷◌, ◌++◌, Text, length, length-append, ok, err, arith,
  none, ◌<◌,
}
use orynx.CurrencyPair.{
  CurrencyPair, validate_basic, to_string, from_string, pair_separator, split, two_fields,
  bad_format, to_upper, field_separator,
}
use orynx.CurrencyPair.Format.{IsAsset, IsFieldLength, validate_basic_iff}
use orynx.CurrencyPair.RoundTrip.{to_upper-append, slash_upper}
use orynx.CurrencyPair.Split.{occurrences, length-split}

abbrev pub slash_in_base : Text → Text → Text → CurrencyPair
slash_in_base a b c = record { base = a ++ pair_separator ∷ b; quote = c }

abbrev pub slash_in_quote : Text → Text → Text → CurrencyPair
slash_in_quote a b c = record { base = a; quote = b ++ pair_separator ∷ c }

occurrences-append :
    (sep : ℕ) (s t : Text) → occurrences sep (s ++ t) ≡ occurrences sep s + occurrences sep t
occurrences-append sep [] t = omega arith
occurrences-append sep (c ∷ s) t = ground (arith, occurrences-append sep s t)

two_fields-none : (fs : List Text) → 3 ≤ length fs → two_fields fs ≡ none
two_fields-none [] h = refl
two_fields-none (a ∷ []) h = refl
two_fields-none (a ∷ b ∷ []) h = absurd (omega arith)
two_fields-none (a ∷ b ∷ c ∷ r) h = refl

to_string-slash :
    (a b c : Text) → to_string (slash_in_base a b c) ≡ to_string (slash_in_quote a b c)
unfolding to_string
to_string-slash a b c = append_assoc a (pair_separator ∷ b) (pair_separator ∷ c)

slashes : (a b c : Text) → 2 ≤ occurrences pair_separator (to_string (slash_in_quote a b c))
unfolding to_string
slashes a b c = ground (
  arith,
  occurrences-append pair_separator a (pair_separator ∷ b ++ pair_separator ∷ c),
  occurrences-append pair_separator b (pair_separator ∷ c),
)

slash-ne : (a b c : Text) → slash_in_base a b c ≢ slash_in_quote a b c
slash-ne a b c e = absurd (
    omega (arith, ap (λ (p : CurrencyPair). length p.base) e, length-append a (pair_separator ∷ b)))

-- A short legacy asset, in upper case and with no comma.
abbrev pub IsShortTicker : Text → Type 0
IsShortTicker s =
    (0 < length s) × (length s ≤ 100) × (to_upper s ≡ s) × (occurrences field_separator s ≡ 0)

joined-IsAsset :
    (a b : Text)
    → IsShortTicker a
    → IsShortTicker b
    → IsFieldLength (a ++ pair_separator ∷ b) × IsAsset (a ++ pair_separator ∷ b)
joined-IsAsset a b h k = ground (
  arith,
  length-append a (pair_separator ∷ b),
  occurrences-append field_separator a (pair_separator ∷ b),
  to_upper-append a (pair_separator ∷ b),
  slash_upper b,
)

unreadable : (s : Text) → 2 ≤ occurrences pair_separator s → from_string s ≡ err bad_format
unfolding from_string
unreadable s h =
    ground (arith, two_fields-none (split pair_separator s), length-split pair_separator s)

-- Two different valid pairs may have one string, which the parser then refuses: for all short
-- upper-case texts a, b and c without a comma, the pairs (a/b, c) and (a, b/c) are both valid, differ
-- and print alike, and the printed form is no pair for `CurrencyPairFromString`.
pub to_string_ambiguous :
    (a b c : Text)
    → IsShortTicker a
    → IsShortTicker b
    → IsShortTicker c
    → (validate_basic (slash_in_base a b c) ≡ ok tt)
      × (validate_basic (slash_in_quote a b c) ≡ ok tt)
      × (slash_in_base a b c ≢ slash_in_quote a b c)
      × (to_string (slash_in_base a b c) ≡ to_string (slash_in_quote a b c))
      × (from_string (to_string (slash_in_base a b c)) ≡ err bad_format)
to_string_ambiguous a b c ha hb hc = (
  (validate_basic_iff _).1 (ground (arith, joined-IsAsset a b ha hb)),
  (validate_basic_iff _).1 (ground (arith, joined-IsAsset b c hb hc)),
  slash-ne a b c,
  to_string-slash a b c,
  rw (to_string-slash a b c) (unreadable _ (slashes a b c)),
)
