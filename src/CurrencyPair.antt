-- ===== src/CurrencyPair.antt =====
-- pkg/types/currency_pair.go: the identifier of a price feed. A string is its bytes. `strings.ToUpper`
-- is modelled on ASCII text, where it maps each byte; other bytes are left alone here.
mod Split
pub mod Format
pub mod RoundTrip
pub mod Slash
mod Tests
use orynx.Prelude.{
  ℕ, ◌+◌, ◌-◌, Bool, true, false, not, ◌&&◌, ◌||◌, List, [], ◌∷◌, ◌++◌, map, Text, Text-discrete,
  codes, length, Option, none, some, ite, ltb, leb, ◌==◌, if◌then◌else◌, Result, ok, err, ◌>>=◌,
  ◌>>◌, fail_if, or_fail, wrap_err, ℕ_discrete,
}
unfoldable pub use Split.{split, contains}

pub record CurrencyPair : Type 0 where
  pub base : Text
  pub quote : Text

pub CurrencyPair-discrete : Discrete CurrencyPair
CurrencyPair-discrete = hlevel ℕ_discrete

abbrev pub max_cp_field_length : ℕ
max_cp_field_length = 256

abbrev pub field_separator : ℕ
field_separator = b','

abbrev pub expected_split_length : ℕ
expected_split_length = 3

abbrev pub pair_separator : ℕ
pair_separator = b'/'

pub data AssetError : Type 0 where
  not_upper_case has_separator wrong_split_length : AssetError
  invalid_token : AssetError → AssetError

pub data PairError : Type 0 where
  empty_base empty_quote long_base long_quote bad_format : PairError
  invalid_base invalid_quote : AssetError → PairError

-- strings.ToUpper, byte by byte.
abbrev pub upper_byte : ℕ → ℕ
upper_byte c = if leb b'a' c && leb c b'z' then c - 32 else c

unfoldable pub to_upper : Text → Text
to_upper = map upper_byte

abbrev pub is_empty : Text → Bool
is_empty [] = true
is_empty (c ∷ s) = false

-- `strings.ToUpper(s) == s`
unfoldable pub is_upper : Text → Bool
is_upper s = ite (Text-discrete (to_upper s) s) true false

unfoldable pub is_legacy_asset_string : Text → Bool
is_legacy_asset_string asset = not (contains field_separator asset)

unfoldable pub core_validate : CurrencyPair → Result PairError (Unit {0})
core_validate cp = do
  fail_if (is_empty cp.base) empty_base
  fail_if (is_empty cp.quote) empty_quote
  fail_if (ltb max_cp_field_length (length cp.base)) long_base
  fail_if (ltb max_cp_field_length (length cp.quote)) long_quote

unfoldable pub validate_legacy_asset_string : Text → Result AssetError (Unit {0})
validate_legacy_asset_string asset = do
  fail_if (not (is_upper asset)) not_upper_case
  fail_if (not (is_legacy_asset_string asset)) has_separator

-- The three fields, if the split has exactly three.
abbrev pub three_fields : List Text → Option (Text × Text × Text)
three_fields [] = none
three_fields (a ∷ []) = none
three_fields (a ∷ b ∷ []) = none
three_fields (a ∷ b ∷ c ∷ []) = some (a, b, c)
three_fields (a ∷ b ∷ c ∷ d ∷ r) = none

unfoldable pub split_defi_asset_string : Text → Result AssetError (Text × Text × Text)
split_defi_asset_string defi =
    or_fail (three_fields (split field_separator defi)) wrong_split_length

unfoldable pub validate_defi_asset_string : Text → Result AssetError (Unit {0})
validate_defi_asset_string asset = do
  fields ← split_defi_asset_string asset
  wrap_err invalid_token (validate_legacy_asset_string fields.0)
  fail_if (not (is_upper asset)) not_upper_case

unfoldable pub validate_asset : Text → Result AssetError (Unit {0})
validate_asset asset =
    if is_legacy_asset_string asset
    then validate_legacy_asset_string asset
    else validate_defi_asset_string asset

unfoldable pub validate_basic : CurrencyPair → Result PairError (Unit {0})
validate_basic cp = do
  core_validate cp
  wrap_err invalid_base (validate_asset cp.base)
  wrap_err invalid_quote (validate_asset cp.quote)

-- `LegacyValidateBasic`, whose single error message does not say which field it is about.
unfoldable pub legacy_validate_basic : CurrencyPair → Result PairError (Unit {0})
legacy_validate_basic cp = do
  fail_if (is_empty cp.base || is_empty cp.quote) bad_format
  fail_if (not (is_upper cp.base)) (invalid_base not_upper_case)
  fail_if (not (is_upper cp.quote)) (invalid_quote not_upper_case)
  fail_if (ltb max_cp_field_length (length cp.base) || ltb max_cp_field_length (length cp.quote))
      bad_format

abbrev pub invert : CurrencyPair → CurrencyPair
invert cp = record { base = cp.quote; quote = cp.base }

-- `CurrencyPair.String`
unfoldable pub to_string : CurrencyPair → Text
to_string cp = cp.base ++ pair_separator ∷ cp.quote

-- `NewCurrencyPair`
abbrev pub new_currency_pair : Text → Text → CurrencyPair
new_currency_pair base quote = record { base = base; quote = quote }

abbrev pub currency_pair_string : Text → Text → Text
unfolding to_string
currency_pair_string base quote = to_string (new_currency_pair base quote)

abbrev pub two_fields : List Text → Option (Text × Text)
two_fields [] = none
two_fields (a ∷ []) = none
two_fields (a ∷ b ∷ []) = some (a, b)
two_fields (a ∷ b ∷ c ∷ r) = none

-- `CurrencyPairFromString`
unfoldable pub from_string : Text → Result PairError CurrencyPair
from_string s = do
  fields ← or_fail (two_fields (split pair_separator s)) bad_format
  let cp =
      let c : CurrencyPair = record { base = to_upper fields.0; quote = to_upper fields.1 } in c
  validate_basic cp
  ok cp

abbrev ethereum : Text
ethereum = codes "ETHEREUM"

abbrev pub legacy_decimals : CurrencyPair → ℕ
legacy_decimals cp = ite (Text-discrete (to_upper cp.quote) ethereum) 18 8

-- `CurrencyPair.Equal`
unfoldable pub equal : CurrencyPair → CurrencyPair → Bool
equal a b = ite (Text-discrete a.base b.base) (ite (Text-discrete a.quote b.quote) true false) false
