-- ===== src/SideCar/Tickers.antt =====
-- What `ProviderTickersFromMarketMap` (oracle/types/market.go) returns.
use orynx.Prelude.{
  ℕ, ◌+◌, ◌≡◌, refl, Bool, true, false, ◌&&◌, ◌||◌, List, [], ◌∷◌, ◌++◌, Text, Text-discrete, ite,
  arith, Bool-cases, inl, inr, if◌then◌else◌,
}
use orynx.MarketMap.{MarketMap, ProviderConfig, is_member}
use orynx.SideCar.{
  ProviderTicker, add_ticker, market_tickers, map_tickers, provider_tickers_from_market_map,
}

-- How many of the tickers have this off-chain ticker.
abbrev pub count_ticker : Text → List ProviderTicker → ℕ
count_ticker x [] = 0
count_ticker x (t ∷ ts) = ite (Text-discrete x t.off_chain_ticker) 1 0 + count_ticker x ts

-- A configuration of the provider has the off-chain ticker.
abbrev pub is_configured : Text → Text → List ProviderConfig → Bool
is_configured name x [] = false
is_configured name x (pc ∷ pcs) =
    ite (Text-discrete pc.name name) (ite (Text-discrete x pc.off_chain_ticker) true false) false
    || is_configured name x pcs

-- An enabled market has such a configuration.
abbrev pub is_wanted : Text → Text → MarketMap → Bool
is_wanted name x [] = false
is_wanted name x ((key, market) ∷ markets) =
    market.ticker.enabled && is_configured name x market.provider_configs
    || is_wanted name x markets

count-append :
    (x : Text) (ts us : List ProviderTicker)
    → count_ticker x (ts ++ us) ≡ count_ticker x ts + count_ticker x us
count-append x [] us = omega arith
count-append x (t ∷ ts) us = omega (arith, count-append x ts us)

-- The off-chain tickers seen are those of the tickers found, each once.
abbrev IsSeen : Text → List ProviderTicker × List Text → Type 0
IsSeen x found = count_ticker x found.0 ≡ (if is_member x found.1 then 1 else 0)

add_ticker-IsSeen :
    (name x : Text) (pc : ProviderConfig) (found : List ProviderTicker × List Text)
    → IsSeen x found
    → IsSeen x (add_ticker name pc found)
      × (is_member x (add_ticker name pc found).1
          ≡ is_member x found.1
            || ite
                (Text-discrete pc.name name)
                (ite (Text-discrete x pc.off_chain_ticker) true false)
                false)
unfolding add_ticker is_member
add_ticker-IsSeen name x pc (tickers, seen) h = ground (
  arith,
  count-append x tickers
      (record { off_chain_ticker = pc.off_chain_ticker; json = pc.metadata_json } ∷ []),
)

market_tickers-IsSeen :
    (name x : Text) (pcs : List ProviderConfig) (found : List ProviderTicker × List Text)
    → IsSeen x found
    → IsSeen x (market_tickers name pcs found)
      × (is_member x (market_tickers name pcs found).1
          ≡ is_member x found.1 || is_configured name x pcs)
unfolding market_tickers
market_tickers-IsSeen name x [] found h = (h, ground arith)
market_tickers-IsSeen name x (pc ∷ pcs) found h =
    let (step, member) = add_ticker-IsSeen name x pc found h in
    let (rest, members) = market_tickers-IsSeen name x pcs (add_ticker name pc found) step in
    (rest, ground (arith, member, members))

map_tickers-IsSeen :
    (name x : Text) (mm : MarketMap) (found : List ProviderTicker × List Text)
    → IsSeen x found
    → IsSeen x (map_tickers name mm found)
      × (is_member x (map_tickers name mm found).1 ≡ is_member x found.1 || is_wanted name x mm)
unfolding map_tickers
map_tickers-IsSeen name x [] found h = (h, ground arith)
map_tickers-IsSeen name x ((key, market) ∷ markets) found h =
    elim (Bool-cases market.ticker.enabled) [
      | inl on ↦
          let (step, member) = market_tickers-IsSeen name x market.provider_configs found h in
          let (rest, members) =
            map_tickers-IsSeen name x markets (market_tickers name market.provider_configs found)
              step in
          (rw on rest, ground (arith, member, members))
      | inr off ↦
          let (rest, members) = map_tickers-IsSeen name x markets found h in
          (rw off rest, ground (arith, members))
    ]

-- A provider gets a ticker for exactly the off-chain tickers that some enabled market configures for it,
-- and one only for each, whatever order the market map is iterated in.
pub count-provider_tickers :
    (name x : Text) (mm : MarketMap)
    → count_ticker x (provider_tickers_from_market_map name mm)
      ≡ (if is_wanted name x mm then 1 else 0)
unfolding provider_tickers_from_market_map is_member
count-provider_tickers name x mm =
    let (seen, members) = map_tickers-IsSeen name x mm ([], []) refl in
    ground (arith, seen, members)
