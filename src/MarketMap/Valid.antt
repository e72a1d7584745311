-- ===== src/MarketMap/Valid.antt =====
-- What `MarketMap.ValidateBasic` (x/marketmap/types/market.go) accepts.
use orynx.Prelude.{
  ◌≡◌, ◌↔◌, refl, Bool, true, List, [], ◌∷◌, Option, none, some, Text, Text-discrete, ok, All,
  arith,
}
use orynx.Prelude.Dict.{get}
use orynx.CurrencyPair.{CurrencyPair, to_string}
use orynx.MarketMap.{
  Market, MarketMap, ProviderConfig, check_normalize, check_normalizes, ticker_string,
  validate_market, validate_entries, validate_market_map,
}

-- The provider has no normalization market, or one that is in the map, and enabled if the market is.
abbrev pub IsNormalized : MarketMap → Market → ProviderConfig → Type 0
IsNormalized mm market pc =
    (cp : CurrencyPair)
    → pc.normalize_by_pair ≡ some cp
    → (norm : Market) × (get Text-discrete (to_string cp) mm ≡ some norm)
      × (market.ticker.enabled ≡ true → norm.ticker.enabled ≡ true)

pub check_normalize_iff :
    (mm : MarketMap) (market : Market) (pc : ProviderConfig)
    → (check_normalize mm market pc ≡ ok tt) ↔ IsNormalized mm market pc
unfolding check_normalize
check_normalize_iff mm market pc = (λ h. sound h, λ h. complete pc.normalize_by_pair refl h)
  where
    sound : check_normalize mm market pc ≡ ok tt → IsNormalized mm market pc
    sound h cp e = found (get Text-discrete (to_string cp) mm) refl
      where
        found :
            (o : Option Market)
            → get Text-discrete (to_string cp) mm ≡ o
            → (norm : Market) × (get Text-discrete (to_string cp) mm ≡ some norm)
              × (market.ticker.enabled ≡ true → norm.ticker.enabled ≡ true)
        found none q = absurd (ground arith)
        found (some norm) q = (norm, q, λ t. ground arith)

    complete :
        (o : Option CurrencyPair)
        → pc.normalize_by_pair ≡ o
        → IsNormalized mm market pc
        → check_normalize mm market pc ≡ ok tt
    complete none e h = ground arith
    complete (some cp) e h = let (norm, q, t) = h cp e in ground arith

pub check_normalizes_iff :
    (mm : MarketMap) (market : Market) (pcs : List ProviderConfig)
    → (check_normalizes mm market pcs ≡ ok tt) ↔ All (IsNormalized mm market) pcs
check_normalizes_iff mm market [] = (λ h. tt, λ h. refl)
check_normalizes_iff mm market (pc ∷ pcs) =
    ground (arith, check_normalize_iff mm market pc, check_normalizes_iff mm market pcs)

module _ (json_object : Text → Bool) where
  abbrev pub IsValidEntry : MarketMap → Text × Market → Type 0
  IsValidEntry mm (key, market) =
      (validate_market json_object market ≡ ok tt)
      × (key ≡ ticker_string market)
      × All (IsNormalized mm market) market.provider_configs

  validate_entries_iff :
      (mm entries : MarketMap)
      → (validate_entries json_object mm entries ≡ ok tt) ↔ All (IsValidEntry mm) entries
  validate_entries_iff mm [] = (λ h. tt, λ h. refl)
  validate_entries_iff mm ((key, market) ∷ entries) = ground (
    arith,
    check_normalizes_iff mm market market.provider_configs,
    validate_entries_iff mm entries,
  )

  -- `ValidateBasic` accepts a market map exactly when each of its markets is valid by itself, stands
  -- under its own ticker, and has only providers whose normalization market, if there is one, is in the
  -- map, and enabled if the market is.
  pub validate_market_map_iff :
      (mm : MarketMap) → (validate_market_map json_object mm ≡ ok tt) ↔ All (IsValidEntry mm) mm
  unfolding validate_market_map
  validate_market_map_iff mm = validate_entries_iff mm mm
