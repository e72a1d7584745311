-- ===== src/MarketMap/Subset.antt =====
-- `MarketMap.GetValidSubset` (x/marketmap/types/market.go).
use orynx.Prelude.{
  ◌≡◌, refl, sym, ◌⊎◌, Bool, List, [], ◌∷◌, Option, none, some, Text, Text-discrete, ok, err, All,
  arith, inl, inr,
}
use orynx.Prelude.Dict.{get, IsMap}
use orynx.CurrencyPair.{CurrencyPair, to_string}
use orynx.MarketMap.{
  Market, MarketMap, MarketError, ProviderConfig, check_normalize, check_normalizes, ticker_string,
  validate_market, validate_entries, validate_market_map, valid_configs, prune_configs,
  drop_invalid, get_valid_subset, normalize_not_found,
}

valid_configs_all :
    (mm : MarketMap) (market : Market) (pcs : List ProviderConfig)
    → check_normalizes mm market pcs ≡ ok tt
    → valid_configs mm market pcs ≡ pcs
valid_configs_all mm market [] h = refl
valid_configs_all mm market (pc ∷ pcs) h = ground (arith, valid_configs_all mm market pcs)

module _ (json_object : Text → Bool) where
  keeps_valid :
      (mm entries : MarketMap)
      → validate_entries json_object mm entries ≡ ok tt
      → drop_invalid json_object (prune_configs mm entries) ≡ entries
  keeps_valid mm [] h = refl
  keeps_valid mm ((key, market) ∷ entries) h =
      ground (arith, valid_configs_all mm market market.provider_configs, keeps_valid mm entries)

  -- A market map that is valid already is its own valid subset, and the final check accepts it.
  pub get_valid_subset_fixed :
      (mm : MarketMap)
      → validate_market_map json_object mm ≡ ok tt
      → get_valid_subset json_object mm ≡ (mm, ok tt)
  unfolding get_valid_subset validate_market_map
  get_valid_subset_fixed mm h = ground (arith, keeps_valid mm mm h)

  drop_invalid-valid :
      (entries : MarketMap)
      → All
          (λ (e : Text × Market).
            (validate_market json_object e.1 ≡ ok tt) × (e.0 ≡ ticker_string e.1))
          (drop_invalid json_object entries)
  drop_invalid-valid [] = tt
  drop_invalid-valid ((key, market) ∷ entries) = ground (arith, drop_invalid-valid entries)

  get-drop_invalid :
      (key k : Text) (m : Market) (entries : MarketMap) {market : Market}
      → get Text-discrete key (drop_invalid json_object ((k, m) ∷ entries)) ≡ some market
      → ((key ≡ k) × (m ≡ market))
        ⊎ (get Text-discrete key (drop_invalid json_object entries) ≡ some market)
  unfolding get
  get-drop_invalid key k m entries h = ground arith

  -- A market of the subset is a market of the map, with the providers of the first pass.
  get-subset :
      (mm entries : MarketMap) (key : Text) {market : Market}
      → IsMap Text-discrete entries
      → get Text-discrete key (drop_invalid json_object (prune_configs mm entries)) ≡ some market
      → (origin : Market) × (get Text-discrete key entries ≡ some origin)
        × (market.ticker ≡ origin.ticker)
        × (market.provider_configs ≡ valid_configs mm origin origin.provider_configs)
  unfolding get
  get-subset mm [] key i h = absurd (ground arith)
  get-subset mm ((k, m) ∷ entries) key {market} i h =
      let pruned : Market = record m { provider_configs = valid_configs mm m m.provider_configs } in
      elim (get-drop_invalid key k pruned (prune_configs mm entries) h) [
        | inl (e, p) ↦ (m, ground arith, rw (sym p) refl, rw (sym p) refl)
        | inr q ↦
            let (origin, g, t, c) = get-subset mm entries key i.1 q in
            (origin, ground (arith, i.0), t, c)
      ]

  valid_configs-checked :
      (mm : MarketMap) (market : Market) (pcs : List ProviderConfig)
      → check_normalizes mm market (valid_configs mm market pcs) ≡ ok tt
  valid_configs-checked mm market [] = refl
  valid_configs-checked mm market (pc ∷ pcs) = ground (arith, valid_configs-checked mm market pcs)

  check_normalizes_ticker :
      (mm : MarketMap) (a b : Market) (pcs : List ProviderConfig)
      → a.ticker ≡ b.ticker
      → check_normalizes mm a pcs ≡ check_normalizes mm b pcs
  unfolding check_normalize
  check_normalizes_ticker mm a b [] e = refl
  check_normalizes_ticker mm a b (pc ∷ pcs) e = rw (check_normalizes_ticker mm a b pcs e, e) refl

  -- What holds of each market of the subset: valid by itself, under its ticker, and normalized by the
  -- markets of the whole map.
  abbrev IsKept : MarketMap → Text × Market → Type 0
  IsKept mm (key, market) =
      (validate_market json_object market ≡ ok tt)
      × (key ≡ ticker_string market)
      × (check_normalizes mm market market.provider_configs ≡ ok tt)

  subset-IsKept :
      (mm entries : MarketMap)
      → All (IsKept mm) (drop_invalid json_object (prune_configs mm entries))
  subset-IsKept mm [] = tt
  subset-IsKept mm ((key, market) ∷ entries) =
      let pruned : Market = record market {
        provider_configs = valid_configs mm market market.provider_configs;
      } in
      let rest = subset-IsKept mm entries in
      let checked : check_normalizes mm pruned pruned.provider_configs ≡ ok tt =
        rw (check_normalizes_ticker mm pruned market pruned.provider_configs refl)
          (valid_configs-checked mm market market.provider_configs) in
      ground arith

  lost_normalization :
      (mm : MarketMap) (market : Market) (pc : ProviderConfig) {e : MarketError}
      → IsMap Text-discrete mm
      → check_normalize mm market pc ≡ ok tt
      → check_normalize (drop_invalid json_object (prune_configs mm mm)) market pc ≡ err e
      → e ≡ normalize_not_found
  unfolding check_normalize
  lost_normalization mm market pc {e} i h f = by_pair pc.normalize_by_pair refl
    where
      subset : MarketMap
      subset = drop_invalid json_object (prune_configs mm mm)

      by_market :
          (cp : CurrencyPair) (o : Option Market)
          → pc.normalize_by_pair ≡ some cp
          → get Text-discrete (to_string cp) subset ≡ o
          → e ≡ normalize_not_found
      by_market cp none p q = ground arith
      by_market cp (some norm) p q =
          let (origin, g, t, c) = get-subset mm mm (to_string cp) i q in
          let same : norm.ticker.enabled ≡ origin.ticker.enabled = rw t refl in
          absurd (ground arith)

      by_pair : (o : Option CurrencyPair) → pc.normalize_by_pair ≡ o → e ≡ normalize_not_found
      by_pair none p = absurd (ground arith)
      by_pair (some cp) p = by_market cp (get Text-discrete (to_string cp) subset) p refl

  lost_normalizations :
      (mm : MarketMap) (market : Market) (pcs : List ProviderConfig) {e : MarketError}
      → IsMap Text-discrete mm
      → check_normalizes mm market pcs ≡ ok tt
      → check_normalizes (drop_invalid json_object (prune_configs mm mm)) market pcs ≡ err e
      → e ≡ normalize_not_found
  lost_normalizations mm market [] i h f = absurd (ground arith)
  lost_normalizations mm market (pc ∷ pcs) {e} i h f = ground (
    arith,
    lost_normalization mm market pc {e = e} i,
    lost_normalizations mm market pcs {e = e} i,
  )

  kept_verdict :
      (mm entries : MarketMap) {e : MarketError}
      → IsMap Text-discrete mm
      → All (IsKept mm) entries
      → validate_entries json_object (drop_invalid json_object (prune_configs mm mm)) entries
        ≡ err e
      → e ≡ normalize_not_found
  kept_verdict mm [] i k f = absurd (ground arith)
  kept_verdict mm ((key, market) ∷ entries) {e} i k f = ground (
    arith,
    lost_normalizations mm market market.provider_configs {e = e} i,
    kept_verdict mm entries {e = e} i k.1,
  )

  -- Each market of the subset is valid by itself and stands under its own ticker, and the only way in
  -- which the final check can fail is a normalization market that the second pass has removed.
  pub get_valid_subset_lem :
      (mm : MarketMap)
      → IsMap Text-discrete mm
      → All
          (λ (entry : Text × Market).
            (validate_market json_object entry.1 ≡ ok tt) × (entry.0 ≡ ticker_string entry.1))
          (get_valid_subset json_object mm).0
        × ((e : MarketError)
            → (get_valid_subset json_object mm).1 ≡ err e
            → e ≡ normalize_not_found)
  unfolding get_valid_subset validate_market_map
  get_valid_subset_lem mm i = (
    drop_invalid-valid (prune_configs mm mm),
    λ e f.
        kept_verdict mm (drop_invalid json_object (prune_configs mm mm)) i (subset-IsKept mm mm) f,
  )

  drop_invalid-none :
      (mm entries : MarketMap) (key : Text)
      → get Text-discrete key entries ≡ none
      → get Text-discrete key (drop_invalid json_object (prune_configs mm entries)) ≡ none
  unfolding get
  drop_invalid-none mm [] key h = h
  drop_invalid-none mm ((name, market) ∷ entries) key h =
      ground (arith, drop_invalid-none mm entries key)

  drop_invalid-IsMap :
      (mm entries : MarketMap)
      → IsMap Text-discrete entries
      → IsMap Text-discrete (drop_invalid json_object (prune_configs mm entries))
  drop_invalid-IsMap mm [] i = tt
  drop_invalid-IsMap mm ((name, market) ∷ entries) i =
      ground (arith, drop_invalid-none mm entries name i.0, drop_invalid-IsMap mm entries i.1)

  -- The valid subset of a map has distinct keys too.
  pub get_valid_subset-IsMap :
      (mm : MarketMap)
      → IsMap Text-discrete mm
      → IsMap Text-discrete (get_valid_subset json_object mm).0
  unfolding get_valid_subset
  get_valid_subset-IsMap mm i = drop_invalid-IsMap mm mm i
