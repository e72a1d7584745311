-- ===== src/MarketMap.antt =====
-- x/marketmap/types: market.go, ticker.go and provider.go. A Go map is its entries in the order of one
-- iteration. Whether a text that is not empty parses as a JSON object is a parameter.
pub mod Equal
pub mod Valid
pub mod Subset
pub mod Store
pub mod Keeper
pub mod Tests
pub mod Checks
use orynx.Prelude.{
  ℕ, ◌==◌, Bool, true, false, not, ◌&&◌, ◌||◌, List, [], ◌∷◌, ◌++◌, Option, none, some, Text,
  Text-discrete, length, ite, ltb, if◌then◌else◌, Result, ok, err, ◌>>=◌, ◌>>◌, fail_if, or_fail,
  wrap_err, ℕ_discrete,
}
use orynx.Prelude.Dict.{Dict, get}
use orynx.CurrencyPair.{CurrencyPair, PairError, validate_basic, to_string, is_empty}

pub record Ticker : Type 0 where
  pub currency_pair : CurrencyPair
  pub decimals : ℕ
  pub min_provider_count : ℕ
  pub enabled : Bool
  pub metadata_json : Text

-- A `NormalizeByPair` that is nil is `none`.
pub record ProviderConfig : Type 0 where
  pub name : Text
  pub off_chain_ticker : Text
  pub normalize_by_pair : Option CurrencyPair
  pub inverted : Bool
  pub metadata_json : Text

pub record Market : Type 0 where
  pub ticker : Ticker
  pub provider_configs : List ProviderConfig

-- The field `Markets` of `MarketMap`.
abbrev pub MarketMap : Type 0
MarketMap = Dict Text Market

pub data MarketError : Type 0 where
  bad_decimals bad_min_provider_count long_metadata bad_metadata : MarketError
  empty_name empty_off_chain_ticker too_few_providers duplicate_provider : MarketError
  ticker_mismatch normalize_not_found normalize_disabled : MarketError
  bad_pair : PairError → MarketError

abbrev pub default_max_decimals : ℕ
default_max_decimals = 36

abbrev pub default_min_provider_count : ℕ
default_min_provider_count = 1

abbrev pub max_metadata_json_field_length : ℕ
max_metadata_json_field_length = 16384

-- `_, seen := m[key]` for a map of keys.
unfoldable pub is_member : Text → List Text → Bool
is_member s [] = false
is_member s (t ∷ ts) = ite (Text-discrete s t) true (is_member s ts)

-- `Ticker.String`
abbrev pub ticker_string : Market → Text
ticker_string market = to_string market.ticker.currency_pair

-- The key of a market must be the string of its ticker.
abbrev pub is_keyed : Text → Market → Bool
is_keyed key market = ite (Text-discrete key (ticker_string market)) true false

abbrev pub provider_key : ProviderConfig → Text
provider_key pc = pc.name ++ pc.off_chain_ticker

-- What `ValidateBasic` of a market map asks of a provider's normalization market, and what
-- `GetValidSubset` looks at to drop the provider.
unfoldable pub check_normalize : MarketMap → Market → ProviderConfig → Result MarketError (Unit {0})
check_normalize mm market pc = elim pc.normalize_by_pair [
  | none ↦ ok tt
  | some cp ↦ elim (get Text-discrete (to_string cp) mm) [
    | none ↦ err normalize_not_found
    | some norm ↦ fail_if (not norm.ticker.enabled && market.ticker.enabled) normalize_disabled
  ]
]

abbrev pub check_normalizes :
    MarketMap → Market → List ProviderConfig → Result MarketError (Unit {0})
check_normalizes mm market [] = ok tt
check_normalizes mm market (pc ∷ pcs) = do
  check_normalize mm market pc
  check_normalizes mm market pcs

module _ (json_object : Text → Bool) where
  -- `json.IsValid` (pkg/json)
  abbrev pub is_valid_json : Text → Bool
  is_valid_json bz = is_empty bz || json_object bz

  abbrev pub validate_metadata : Text → Result MarketError (Unit {0})
  validate_metadata bz = do
    fail_if (ltb max_metadata_json_field_length (length bz)) long_metadata
    fail_if (not (is_valid_json bz)) bad_metadata

  -- `Ticker.ValidateBasic`
  unfoldable pub validate_ticker : Ticker → Result MarketError (Unit {0})
  validate_ticker t = do
    fail_if (ltb default_max_decimals t.decimals || t.decimals == 0) bad_decimals
    fail_if (ltb t.min_provider_count default_min_provider_count) bad_min_provider_count
    wrap_err bad_pair (validate_basic t.currency_pair)
    validate_metadata t.metadata_json

  -- `ProviderConfig.ValidateBasic`
  unfoldable pub validate_provider_config : ProviderConfig → Result MarketError (Unit {0})
  validate_provider_config pc = do
    fail_if (is_empty pc.name) empty_name
    fail_if (is_empty pc.off_chain_ticker) empty_off_chain_ticker
    (elim pc.normalize_by_pair [ none ↦ ok tt | some cp ↦ wrap_err bad_pair (validate_basic cp) ])
    validate_metadata pc.metadata_json

  -- The loop over the providers in `Market.ValidateBasic`, with the keys it has seen.
  abbrev pub validate_providers : List Text → List ProviderConfig → Result MarketError (Unit {0})
  validate_providers seen [] = ok tt
  validate_providers seen (pc ∷ pcs) = do
    validate_provider_config pc
    fail_if (is_member (provider_key pc) seen) duplicate_provider
    validate_providers (provider_key pc ∷ seen) pcs

  -- `Market.ValidateBasic`
  unfoldable pub validate_market : Market → Result MarketError (Unit {0})
  validate_market market = do
    validate_ticker market.ticker
    fail_if (ltb (length market.provider_configs) market.ticker.min_provider_count)
        too_few_providers
    validate_providers [] market.provider_configs

  abbrev pub validate_entries : MarketMap → MarketMap → Result MarketError (Unit {0})
  validate_entries mm [] = ok tt
  validate_entries mm ((key, market) ∷ entries) = do
    validate_market market
    fail_if (not (is_keyed key market)) ticker_mismatch
    check_normalizes mm market market.provider_configs
    validate_entries mm entries

  -- `MarketMap.ValidateBasic`
  unfoldable pub validate_market_map : MarketMap → Result MarketError (Unit {0})
  validate_market_map mm = validate_entries mm mm

-- The providers that the first pass of `GetValidSubset` keeps.
abbrev pub valid_configs : MarketMap → Market → List ProviderConfig → List ProviderConfig
valid_configs mm market [] = []
valid_configs mm market (pc ∷ pcs) =
    let rest = valid_configs mm market pcs in
    elim (check_normalize mm market pc) [ ok _ ↦ pc ∷ rest | err _ ↦ rest ]

-- The first pass: the entries of the new map. No key comes twice, so each assignment adds one.
abbrev pub prune_configs : MarketMap → MarketMap → MarketMap
prune_configs mm [] = []
prune_configs mm ((key, market) ∷ entries) =
    let pruned =
      let m : Market = record market {
        provider_configs = valid_configs mm market market.provider_configs;
      } in
      m in
    (key, pruned) ∷ prune_configs mm entries

module _ (json_object : Text → Bool) where
  -- The second pass, which deletes from the map it ranges over.
  abbrev pub drop_invalid : MarketMap → MarketMap
  drop_invalid [] = []
  drop_invalid ((key, market) ∷ entries) =
      let rest = drop_invalid entries in
      elim (validate_market json_object market) [
        | err _ ↦ rest
        | ok _ ↦ if is_keyed key market then (key, market) ∷ rest else rest
      ]

  -- `GetValidSubset`: the subset, and the verdict of its own final check.
  unfoldable pub get_valid_subset : MarketMap → MarketMap × Result MarketError (Unit {0})
  get_valid_subset mm =
      let subset = drop_invalid (prune_configs mm mm) in
      (subset, validate_market_map json_object subset)
