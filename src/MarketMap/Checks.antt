-- ===== src/MarketMap/Checks.antt =====
-- What `Market.ValidateBasic` (x/marketmap/types/market.go) accepts.
use orynx.Prelude.{
  ◌≤◌, ◌<◌, ◌≡◌, ◌≢◌, ◌↔◌, refl, Bool, true, false, List, [], ◌∷◌, Option, none, some, Text, ok,
  All, arith, length,
}
use orynx.CurrencyPair.{CurrencyPair, is_empty}
use orynx.CurrencyPair.Format.{IsWellFormed, validate_basic_iff}
use orynx.MarketMap.{
  Market, Ticker, ProviderConfig, validate_market, validate_providers, validate_provider_config,
  provider_key, is_member, validate_ticker, default_max_decimals, default_min_provider_count,
  max_metadata_json_field_length, validate_metadata,
}

module _ (json_object : Text → Bool) where
  abbrev pub IsMetadata : Text → Type 0
  IsMetadata bz = (length bz ≤ max_metadata_json_field_length) × (bz ≢ [] → json_object bz ≡ true)

  validate_metadata_iff : (bz : Text) → (validate_metadata json_object bz ≡ ok tt) ↔ IsMetadata bz
  validate_metadata_iff [] = ground arith
  validate_metadata_iff (b ∷ bz) = ground arith

  abbrev pub IsValidTicker : Ticker → Type 0
  IsValidTicker t =
      (0 < t.decimals)
      × (t.decimals ≤ default_max_decimals)
      × (default_min_provider_count ≤ t.min_provider_count)
      × IsWellFormed t.currency_pair
      × IsMetadata t.metadata_json

  pub validate_ticker_iff : (t : Ticker) → (validate_ticker json_object t ≡ ok tt) ↔ IsValidTicker t
  unfolding validate_ticker
  validate_ticker_iff t =
      ground (arith, validate_basic_iff t.currency_pair, validate_metadata_iff t.metadata_json)

  abbrev pub IsOptionalPair : Option CurrencyPair → Type 0
  IsOptionalPair none = Unit
  IsOptionalPair (some cp) = IsWellFormed cp

  abbrev pub IsValidProvider : ProviderConfig → Type 0
  IsValidProvider pc =
      (pc.name ≢ [])
      × (pc.off_chain_ticker ≢ [])
      × IsOptionalPair pc.normalize_by_pair
      × IsMetadata pc.metadata_json

  not_empty_iff : (s : Text) → (is_empty s ≡ false) ↔ (s ≢ [])
  not_empty_iff [] = (λ h. absurd ground arith, λ h. absurd (h refl))
  not_empty_iff (b ∷ s) = (λ h n. absurd ground arith, λ h. refl)

  validate_provider_config_iff :
      (pc : ProviderConfig) → (validate_provider_config json_object pc ≡ ok tt) ↔ IsValidProvider pc
  unfolding validate_provider_config
  validate_provider_config_iff pc = by_pair pc.normalize_by_pair refl
    where
      by_pair :
          (o : Option CurrencyPair)
          → pc.normalize_by_pair ≡ o
          → (validate_provider_config json_object pc ≡ ok tt) ↔ IsValidProvider pc
      by_pair none e = ground (
        arith,
        not_empty_iff pc.name,
        not_empty_iff pc.off_chain_ticker,
        validate_metadata_iff pc.metadata_json,
      )
      by_pair (some cp) e = ground (
        arith,
        validate_basic_iff cp,
        not_empty_iff pc.name,
        not_empty_iff pc.off_chain_ticker,
        validate_metadata_iff pc.metadata_json,
      )

  -- No key comes twice, and none has been seen.
  abbrev pub AreFresh : List Text → List ProviderConfig → Type 0
  AreFresh seen [] = Unit
  AreFresh seen (pc ∷ pcs) =
      (is_member (provider_key pc) seen ≡ false) × AreFresh (provider_key pc ∷ seen) pcs

  validate_providers_iff :
      (seen : List Text) (pcs : List ProviderConfig)
      → (validate_providers json_object seen pcs ≡ ok tt)
        ↔ (All IsValidProvider pcs × AreFresh seen pcs)
  validate_providers_iff seen [] = ground arith
  validate_providers_iff seen (pc ∷ pcs) =
      ground (
        arith,
        validate_provider_config_iff pc,
        validate_providers_iff (provider_key pc ∷ seen) pcs,
      )

  -- `ValidateBasic` accepts a market exactly when its ticker has 1 to 36 decimals, a positive provider
  -- count, a well-formed pair and valid metadata, it has that many providers, each of them has both
  -- names, a well-formed normalization pair if any and valid metadata, and no two providers have the
  -- same name followed by off-chain ticker.
  pub validate_market_iff :
      (market : Market)
      → (validate_market json_object market ≡ ok tt) ↔ (
          IsValidTicker market.ticker
          × (market.ticker.min_provider_count ≤ length market.provider_configs)
          × All IsValidProvider market.provider_configs
          × AreFresh [] market.provider_configs)
  unfolding validate_market
  validate_market_iff market =
      ground (
        arith,
        validate_ticker_iff market.ticker,
        validate_providers_iff [] market.provider_configs,
      )
