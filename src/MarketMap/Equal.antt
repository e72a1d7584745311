-- ===== src/MarketMap/Equal.antt =====
-- The `Equal` methods of x/marketmap/types/market.go, ticker.go and provider.go.
use orynx.Prelude.{
  ◌≡◌, refl, sym, ◌≢◌, ◌↔◌, Bool, true, false, ◌&&◌, List, [], ◌∷◌, Option, none, some, Text,
  Text-discrete, arith, ite, length, ◌==◌, Option-cases, inl, inr,
}
use orynx.Prelude.Dict.{get, delete, IsMap, get-delete}
use orynx.Prelude.Counts.{length_mono, length-delete, length_of_get, delete-IsMap}
use orynx.CurrencyPair.{CurrencyPair}
use orynx.CurrencyPair
use orynx.MarketMap.{Ticker, ProviderConfig, Market, MarketMap}

abbrev same_text : Text → Text → Bool
same_text a b = ite (Text-discrete a b) true false

abbrev same_flag : Bool → Bool → Bool
same_flag true b = b
same_flag false true = false
same_flag false false = true

unfoldable pub equal_ticker : Ticker → Ticker → Bool
equal_ticker t other =
    CurrencyPair.equal t.currency_pair other.currency_pair
    && t.decimals == other.decimals
    && t.min_provider_count == other.min_provider_count
    && same_text t.metadata_json other.metadata_json
    && same_flag t.enabled other.enabled

abbrev pub equal_normalize : Option CurrencyPair → Option CurrencyPair → Bool
equal_normalize none none = true
equal_normalize none (some cp) = false
equal_normalize (some cp) none = false
equal_normalize (some cp) (some other) = CurrencyPair.equal cp other

unfoldable pub equal_provider : ProviderConfig → ProviderConfig → Bool
equal_provider pc other =
    same_text pc.name other.name
    && same_text pc.off_chain_ticker other.off_chain_ticker
    && same_flag pc.inverted other.inverted
    && equal_normalize pc.normalize_by_pair other.normalize_by_pair
    && same_text pc.metadata_json other.metadata_json

-- The loop over the providers; the lengths are the same.
pub equal_providers : List ProviderConfig → List ProviderConfig → Bool
equal_providers [] others = true
equal_providers (pc ∷ pcs) [] = false
equal_providers (pc ∷ pcs) (other ∷ others) = equal_provider pc other && equal_providers pcs others

unfoldable pub equal_market : Market → Market → Bool
equal_market m other =
    equal_ticker m.ticker other.ticker
    && length m.provider_configs == length other.provider_configs
    && equal_providers m.provider_configs other.provider_configs

pub equal_entries : MarketMap → MarketMap → Bool
equal_entries [] other = true
equal_entries ((key, market) ∷ entries) other = elim (get Text-discrete key other) [
  | none ↦ false
  | some m ↦ equal_market market m && equal_entries entries other
]

-- `MarketMap.Equal`
unfoldable pub equal_market_map : MarketMap → MarketMap → Bool
equal_market_map mm other = length mm == length other && equal_entries mm other

equal_pair_iff : (a b : CurrencyPair) → (CurrencyPair.equal a b ≡ true) ↔ (a ≡ b)
unfolding CurrencyPair.equal
equal_pair_iff a b = ground arith

equal_ticker_iff : (a b : Ticker) → (equal_ticker a b ≡ true) ↔ (a ≡ b)
unfolding equal_ticker
equal_ticker_iff a b = ground (arith, equal_pair_iff a.currency_pair b.currency_pair)

equal_normalize_iff : (a b : Option CurrencyPair) → (equal_normalize a b ≡ true) ↔ (a ≡ b)
equal_normalize_iff none none = ground arith
equal_normalize_iff none (some b) = ground arith
equal_normalize_iff (some a) none = ground arith
equal_normalize_iff (some a) (some b) = ground (arith, equal_pair_iff a b)

equal_provider_iff : (a b : ProviderConfig) → (equal_provider a b ≡ true) ↔ (a ≡ b)
unfolding equal_provider
equal_provider_iff a b = ground (arith, equal_normalize_iff a.normalize_by_pair b.normalize_by_pair)

equal_providers_iff :
    (pcs others : List ProviderConfig)
    → length pcs ≡ length others
    → (equal_providers pcs others ≡ true) ↔ (pcs ≡ others)
unfolding equal_providers
equal_providers_iff [] [] h = ground arith
equal_providers_iff [] (b ∷ others) h = absurd (omega arith)
equal_providers_iff (a ∷ pcs) [] h = absurd (omega arith)
equal_providers_iff (a ∷ pcs) (b ∷ others) h =
    ground (arith, equal_provider_iff a b, equal_providers_iff pcs others)

-- Markets are equal exactly if all their fields are.
pub equal_market_iff : (a b : Market) → (equal_market a b ≡ true) ↔ (a ≡ b)
unfolding equal_market
equal_market_iff a b = ground (
  arith,
  equal_ticker_iff a.ticker b.ticker,
  equal_providers_iff a.provider_configs b.provider_configs,
)

equal_entries_sound :
    (entries other : MarketMap)
    → equal_entries entries other ≡ true
    → (key : Text) (market : Market) → get Text-discrete key entries ≡ some market
    → get Text-discrete key other ≡ some market
unfolding equal_entries get
equal_entries_sound [] other h key market e = absurd (ground arith)
equal_entries_sound ((k, m) ∷ entries) other h key market e =
    elim (Option-cases (get Text-discrete k other)) [
      | inl n ↦ absurd (ground arith)
      | inr (m', p) ↦ ground (
        arith,
        equal_market_iff m m',
        equal_entries_sound entries other (ground arith) key market,
      )
    ]

-- A map with the entries of another one and no more keys has no other key.
no_other_key :
    (mm other : MarketMap)
    → IsMap Text-discrete mm
    → IsMap Text-discrete other
    → length mm ≡ length other
    → ((key : Text) (market : Market)
        → get Text-discrete key mm ≡ some market
        → get Text-discrete key other ≡ some market)
    → (key : Text) → get Text-discrete key mm ≡ none
    → get Text-discrete key other ≡ none
no_other_key mm other i j e h key n = elim (Option-cases (get Text-discrete key other)) [
  | inl m ↦ m
  | inr (market, p) ↦
      let shorter =
        length_mono Text-discrete mm (delete Text-discrete key other) i
          (delete-IsMap Text-discrete key other j) (kept key n) in
      absurd
        (omega (arith, e, shorter, length-delete Text-discrete key other j (λ q. ground arith)))
]
  where
    kept :
        (key : Text)
        → get Text-discrete key mm ≡ none
        → (k : Text) → get Text-discrete k mm ≢ none
        → get Text-discrete k (delete Text-discrete key other) ≢ none
    kept key n k p = elim (Option-cases (get Text-discrete k mm)) [
      | inl q ↦ absurd (p q)
      | inr (m, q) ↦ ground (arith, h k m q, get-delete Text-discrete k key other)
    ]

equal_entries_complete :
    (entries other : MarketMap)
    → IsMap Text-discrete entries
    → ((key : Text) (market : Market)
        → get Text-discrete key entries ≡ some market
        → get Text-discrete key other ≡ some market)
    → equal_entries entries other ≡ true
unfolding equal_entries get
equal_entries_complete [] other i h = refl
equal_entries_complete ((k, m) ∷ entries) other i h = ground (
  arith,
  h k m (ground arith),
  equal_market_iff m m,
  equal_entries_complete entries other i.1 (λ key market e. h key market (ground (arith, i.0))),
)

-- `MarketMap.Equal` holds exactly if both maps have the same market under every key, whatever order the
-- two maps are iterated in.
pub equal_market_map_iff :
    (mm other : MarketMap)
    → IsMap Text-discrete mm
    → IsMap Text-discrete other
    → (equal_market_map mm other ≡ true)
      ↔ ((key : Text) → get Text-discrete key mm ≡ get Text-discrete key other)
unfolding equal_market_map
equal_market_map_iff mm other i j = (
  λ h key. elim (Option-cases (get Text-discrete key mm)) [
    | inr (market, p) ↦ rw p (sym (equal_entries_sound mm other (ground arith) key market p))
    | inl n ↦ rw n (
        sym (
          no_other_key mm other i j (ground arith) (equal_entries_sound mm other (ground arith)) key
            n))
  ],
  λ h. ground (
    arith,
    length_of_get Text-discrete mm other i j h,
    equal_entries_complete mm other i (λ key market e. rw (← h key) e),
  ),
)
