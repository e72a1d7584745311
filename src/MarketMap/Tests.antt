-- ===== src/MarketMap/Tests.antt =====
-- Runs of x/marketmap on small market maps.
use orynx.Prelude.{
  ◌≡◌, ◌↔◌, refl, List, [], ◌∷◌, All, Option, none, some, Text, Text-discrete, codes, ok, err, Bool,
  true, false, arith, inl, ◌==◌,
}
use orynx.Prelude.Dict.{get, put, delete, IsMap}
use orynx.Prelude.Action.{pure}
use orynx.CurrencyPair.{
  CurrencyPair, to_string, validate_basic, core_validate, validate_asset, is_legacy_asset_string,
  contains, validate_legacy_asset_string, is_upper, to_upper,
}
use orynx.MarketMap.{
  Market, MarketMap, MarketError, Ticker, ProviderConfig, validate_market_map, validate_market,
  validate_ticker, validate_provider_config, check_normalize, get_valid_subset, ticker_string,
  normalize_not_found, normalize_disabled, is_member,
}
use orynx.MarketMap.Equal.{equal_market_map, equal_market_map_iff}
use orynx.MarketMap.Subset.{get_valid_subset_lem}
use orynx.MarketMap.Store.{listed_map, ListedMap}
use orynx.MarketMap.Keeper.Genesis.{
  GenesisState, validate_genesis, validate_params, validate_authorities, init_genesis,
  export_genesis,
}
use orynx.MarketMap.Keeper.Genesis.Exported.{IsExported, export_genesis-init_genesis}
use orynx.MarketMap.Keeper.{
  State, default_delete_hook, update_market, delete_market, is_market_valid,
}
use orynx.MarketMap.Keeper.MsgServer.{Hooks, upsert_markets, update_markets, remove_markets, sweep}
use orynx.MarketMap.Keeper.MsgServer.Sweep.{sweep_adjacent}
use orynx.MarketMap.Keeper.MsgServer.Effects.{upsert_markets-IsChanged, IsChanged}
use orynx.MarketMap.Keeper.MsgServer.Removal.{
  IsKeyed, IsRemoval, IsReport, remove_markets-IsRemoval,
}

-- A text that starts with a brace stands for a JSON object.
abbrev pub braced : Text → Bool
braced [] = false
braced (b ∷ bz) = b == b'{'

abbrev provider : Option CurrencyPair → ProviderConfig
provider norm = record {
  name = codes "okx";
  off_chain_ticker = codes "btc";
  normalize_by_pair = norm;
  inverted = false;
  metadata_json = [];
}

abbrev ticker : Text → Bool → Ticker
ticker base enabled = record {
  currency_pair = record { base = base; quote = codes "USD" };
  decimals = 8;
  min_provider_count = 1;
  enabled = enabled;
  metadata_json = [];
}

abbrev usdt : Bool → Market
usdt enabled = record {
  ticker = ticker (codes "USDT") enabled;
  provider_configs = provider none ∷ [];
}

-- A market that is normalized by another one.
abbrev btc : Market
btc = record {
  ticker = ticker (codes "BTC") true;
  provider_configs = provider (some (usdt true).ticker.currency_pair) ∷ [];
}

abbrev pub both : Bool → MarketMap
both enabled = (codes "BTC/USD", btc) ∷ (codes "USDT/USD", usdt enabled) ∷ []

pub both_valid : validate_market_map braced (both true) ≡ ok tt
unfolding validate_market_map validate_market validate_ticker validate_provider_config
    check_normalize is_member get to_string validate_basic core_validate validate_asset
    is_legacy_asset_string contains validate_legacy_asset_string is_upper to_upper
both_valid = ground arith

both_disabled : validate_market_map braced (both false) ≡ err normalize_disabled
unfolding validate_market_map validate_market validate_ticker validate_provider_config
    check_normalize is_member get to_string validate_basic core_validate validate_asset
    is_legacy_asset_string contains validate_legacy_asset_string is_upper to_upper
both_disabled = ground arith

pub both-IsMap : (enabled : Bool) → IsMap Text-discrete (both enabled)
unfolding get
both-IsMap enabled = ground arith

abbrev no_hooks : Hooks (Unit {0})
no_hooks = record {
  after_market_created = λ market. pure tt;
  after_market_updated = λ market. pure tt;
  after_market_removed = λ ticker. pure tt;
}

abbrev state : Bool → State (ListedMap Market) (Unit {0})
state enabled = record {
  markets = record { items = both enabled; is_map = both-IsMap enabled };
  last_updated = some 1;
  params = some (record { market_authorities = codes "alice" ∷ []; admin = codes "alice" });
  world = tt;
}

-- Disabling a market that an enabled one is normalized by passes the check of the message, which looks
-- at the updated markets only; the map that is left is not valid (`both_disabled`).
update_breaks_map :
    ((update_markets listed_map Unit no_hooks 7 (codes "alice") (usdt false ∷ []) (state true)).0
      ≡ ok tt)
    × ((update_markets listed_map Unit no_hooks 7
          (codes "alice")
          (usdt false ∷ [])
          (state true)).1.markets.items
        ≡ both false)
unfolding update_markets update_market is_market_valid is_member put get to_string
update_breaks_map = ground arith

get_valid_subset_lem_example :
    All
      (λ (entry : Text × Market).
        (validate_market braced entry.1 ≡ ok tt) × (entry.0 ≡ ticker_string entry.1))
      (get_valid_subset braced (both false)).0
    × ((e : MarketError)
        → (get_valid_subset braced (both false)).1 ≡ err e
        → e ≡ normalize_not_found)
get_valid_subset_lem_example = get_valid_subset_lem braced (both false) (both-IsMap false)

bob_unknown : is_member (codes "bob") (codes "alice" ∷ []) ≡ false
unfolding is_member
bob_unknown = ground arith

-- The state after the market without normalization was written again.
abbrev rewritten : State (ListedMap Market) (Unit {0})
rewritten = (upsert_markets listed_map Unit no_hooks 7 (codes "alice") (btc ∷ []) (state true)).1

upsert_succeeds :
    upsert_markets listed_map Unit no_hooks 7 (codes "alice") (btc ∷ []) (state true)
    ≡ (ok tt, rewritten)
unfolding upsert_markets update_market is_market_valid is_member put get to_string
upsert_succeeds = ground arith

upsert_markets-IsChanged_example : IsChanged listed_map Unit 7 (btc ∷ []) (state true) rewritten
upsert_markets-IsChanged_example =
    upsert_markets-IsChanged listed_map Unit no_hooks 7 (codes "alice") (btc ∷ []) (state true)
      rewritten (inl upsert_succeeds)

disabled-IsMap : IsMap Text-discrete ((codes "USDT/USD", usdt false) ∷ [])
unfolding get
disabled-IsMap = (refl, tt)

-- One market, which is disabled.
abbrev disabled_state : State (ListedMap Market) (Unit {0})
disabled_state = record (state true) {
  markets = record { items = (codes "USDT/USD", usdt false) ∷ []; is_map = disabled-IsMap };
}

disabled-IsKeyed : IsKeyed listed_map Unit disabled_state.markets
unfolding get to_string
disabled-IsKeyed key market e = ground arith

abbrev removed_state : State (ListedMap Market) (Unit {0})
removed_state =
    (remove_markets listed_map Unit braced no_hooks (default_delete_hook ∷ []) (codes "alice")
      (codes "USDT/USD" ∷ codes "ETH/USD" ∷ []) disabled_state).1

removal_succeeds :
    remove_markets listed_map Unit braced no_hooks
      (default_delete_hook ∷ [])
      (codes "alice")
      (codes "USDT/USD" ∷ codes "ETH/USD" ∷ [])
      disabled_state
    ≡ (ok (codes "USDT/USD" ∷ []), removed_state)
unfolding remove_markets delete_market validate_market_map is_member get delete to_string
removal_succeeds = ground arith

remove_markets-IsRemoval_example :
    IsRemoval listed_map Unit
      (codes "USDT/USD" ∷ codes "ETH/USD" ∷ [])
      disabled_state.markets
      removed_state.markets
    × IsReport listed_map Unit
        (codes "USDT/USD" ∷ [])
        (codes "USDT/USD" ∷ codes "ETH/USD" ∷ [])
        disabled_state
    × (validate_market_map braced removed_state.markets.items ≡ ok tt)
remove_markets-IsRemoval_example =
    remove_markets-IsRemoval listed_map Unit braced no_hooks (codes "alice")
      (codes "USDT/USD" ∷ codes "ETH/USD" ∷ []) (codes "USDT/USD" ∷ []) disabled_state removed_state
      disabled-IsKeyed removal_succeeds

sweep_adjacent_example :
    (rest : List Text) × (sweep
        (codes "a" ∷ codes "b" ∷ [])
        3
        (codes "a" ∷ codes "b" ∷ codes "c" ∷ [])
      ≡ ok rest)
    × (is_member (codes "b") rest ≡ true)
unfolding is_member
sweep_adjacent_example =
    sweep_adjacent (codes "a" ∷ codes "b" ∷ []) (codes "a") (codes "b") (codes "c" ∷ [])
      (ground arith) (ground arith) (ground arith)

-- The same two markets in the other order.
abbrev turned : MarketMap
turned = (codes "USDT/USD", usdt true) ∷ (codes "BTC/USD", btc) ∷ []

turned-IsMap : IsMap Text-discrete turned
unfolding get
turned-IsMap = ground arith

equal_market_map_iff_example :
    (equal_market_map (both true) turned ≡ true)
    ↔ ((key : Text) → get Text-discrete key (both true) ≡ get Text-discrete key turned)
equal_market_map_iff_example =
    equal_market_map_iff (both true) turned (both-IsMap true) turned-IsMap

-- A chain that starts with a market that is normalized by another one, and one authority.
abbrev genesis : GenesisState
genesis = record {
  market_map = both true;
  last_updated = 7;
  market_authorities = some (codes "alice" ∷ []);
  admin = codes "alice";
}

abbrev no_markets : State (ListedMap Market) (Unit {0})
no_markets = record {
  markets = record { items = []; is_map = tt };
  last_updated = none;
  params = none;
  world = tt;
}

genesis_valid : validate_genesis braced (λ a. true) genesis ≡ ok tt
unfolding validate_genesis validate_params validate_authorities is_member
genesis_valid = ground (arith, both_valid)

export_genesis-init_genesis_example :
    (s' : State (ListedMap Market) (Unit {0})) × (gs' : GenesisState) × (init_genesis listed_map
        (Unit {0})
        braced
        (λ a. true)
        (λ mm. pure tt)
        genesis
        no_markets
      ≡ (ok tt, s'))
    × (export_genesis listed_map (Unit {0}) s' ≡ ok gs')
    × IsExported listed_map (Unit {0}) genesis gs'
unfolding get
export_genesis-init_genesis_example =
    export_genesis-init_genesis listed_map (Unit {0}) braced (λ a. true) (λ mm. pure tt) genesis
      no_markets tt (both-IsMap true) genesis_valid (λ k. refl) refl
