-- ===== src/CurrencyPair/Tests.antt =====
-- Runs of pkg/types/currency_pair.go on concrete pairs.
use orynx.Prelude.{◌≡◌, refl, codes, ok, err, false, arith}
use orynx.CurrencyPair.{
  CurrencyPair, validate_basic, legacy_validate_basic, to_string, from_string, to_upper, is_upper,
  is_legacy_asset_string, core_validate, validate_asset, validate_legacy_asset_string,
  validate_defi_asset_string, split_defi_asset_string, split, contains, pair_separator, equal,
  invert, legacy_decimals, bad_format,
}
use orynx.CurrencyPair.RoundTrip.{from_string-to_string}

abbrev btc_usd : CurrencyPair
btc_usd = record { base = codes "BTC"; quote = codes "USD" }

abbrev defi_pair : CurrencyPair
defi_pair = record { base = codes "MOG,UNI,0XAB"; quote = codes "USD" }

reads_lower_case : from_string (codes "btc/usd") ≡ ok btc_usd
unfolding from_string split to_upper validate_basic core_validate validate_asset
    is_legacy_asset_string contains validate_legacy_asset_string is_upper
reads_lower_case = ground arith

refuses_two_slashes : from_string (codes "A/B/C") ≡ err bad_format
unfolding from_string split
refuses_two_slashes = refl

defi_pair_valid : validate_basic defi_pair ≡ ok tt
unfolding validate_basic core_validate validate_asset is_legacy_asset_string contains
    validate_defi_asset_string split_defi_asset_string split validate_legacy_asset_string is_upper
    to_upper
defi_pair_valid = ground arith

legacy_form_ignores_commas :
    legacy_validate_basic (record { base = codes "A,B"; quote = codes "USD" }) ≡ ok tt
unfolding legacy_validate_basic is_upper to_upper
legacy_form_ignores_commas = ground arith

invert_and_decimals :
    (to_string (invert btc_usd) ≡ codes "USD/BTC")
    × (legacy_decimals btc_usd ≡ 8)
    × (legacy_decimals (record { base = codes "BTC"; quote = codes "ethereum" }) ≡ 18)
    × (equal btc_usd (invert btc_usd) ≡ false)
unfolding to_string to_upper equal
invert_and_decimals = (refl, ground arith, ground arith, ground arith)

btc_usd_valid : validate_basic btc_usd ≡ ok tt
unfolding validate_basic core_validate validate_asset is_legacy_asset_string contains
    validate_legacy_asset_string is_upper to_upper
btc_usd_valid = ground arith

btc_has_no_slash : contains pair_separator (codes "BTC") ≡ false
unfolding contains
btc_has_no_slash = refl

usd_has_no_slash : contains pair_separator (codes "USD") ≡ false
unfolding contains
usd_has_no_slash = refl

from_string-to_string_example : from_string (to_string btc_usd) ≡ ok btc_usd
from_string-to_string_example =
    from_string-to_string btc_usd btc_usd_valid btc_has_no_slash usd_has_no_slash
