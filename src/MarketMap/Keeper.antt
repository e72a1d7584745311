-- ===== src/MarketMap/Keeper.antt =====
-- x/marketmap/keeper/keeper.go and x/marketmap/types/validation_hooks.go. The hooks of other modules
-- act on a state of theirs, `world`; they cannot reach this module's.
pub mod MsgServer
pub mod Genesis
pub mod Queries
pub mod Messages
use orynx.Prelude.{
  ℕ, ◌≡◌, Bool, true, false, not, ◌&&◌, List, [], ◌∷◌, map, Option, none, some, Text, Text-discrete,
  Result, ok, err, ite, wrap_err, if◌then◌else◌,
}
use orynx.Prelude.Action.{Action, ◌>>=◌, ◌>>◌, pure, raise, gets, modify, raise_if, or_raise, lift}
use orynx.CurrencyPair.{CurrencyPair, to_string}
use orynx.MarketMap.{Market, MarketMap, MarketError, ProviderConfig, ticker_string}
use orynx.MarketMap.Store.{MapStore}

-- A nil list of authorities is the empty one.
pub record Params : Type 0 where
  pub market_authorities : List Text
  pub admin : Text

pub data KeeperError : Type 0 where
  not_found market_already_exists market_does_not_exist market_is_enabled : KeeperError
  missing_normalize disabled_normalize : KeeperError
  not_market_authority not_authority not_admin not_a_subset panicked hook_error : KeeperError
  invalid_map : MarketError → KeeperError

pub record State (S W : Type 0) : Type 0 where
  pub markets : S
  pub last_updated : Option ℕ
  pub params : Option Params
  pub world : W

-- `DefaultDeleteMarketValidationHook`
abbrev pub default_delete_hook : Market → Result KeeperError (Unit {0})
default_delete_hook market = if market.ticker.enabled then err market_is_enabled else ok tt

-- `MarketValidationHooks.ValidateMarket`
abbrev pub run_hooks :
    List (Market → Result KeeperError (Unit {0})) → Market → Result KeeperError (Unit {0})
run_hooks [] market = ok tt
run_hooks (hook ∷ hooks) market = elim (hook market) [
  | ok _ ↦ run_hooks hooks market
  | err e ↦ err e
]

module _ (c : MapStore Market) (W : Type 0) where
  abbrev pub Keeping : Type 0 → Type 0
  Keeping = Action (State c.Store W) KeeperError

  -- `GetMarket`
  abbrev pub get_market : Text → Keeping Market
  get_market ticker = do found ← gets (λ s. c.look ticker s.markets); or_raise found not_found

  abbrev pub set_market : Market → Keeping (Unit {0})
  set_market market =
      modify (λ s. record s { markets = c.set (ticker_string market) market s.markets })

  abbrev pub with_enabled : Bool → Market → Market
  with_enabled b market =
      let t = market.ticker in record market { ticker = record t { enabled = b } }

  unfoldable pub enable_market : Text → Keeping (Unit {0})
  enable_market ticker = do market ← get_market ticker; set_market (with_enabled true market)

  unfoldable pub disable_market : Text → Keeping (Unit {0})
  disable_market ticker = do market ← get_market ticker; set_market (with_enabled false market)

  -- `HasMarket`
  abbrev pub has_market : Text → State c.Store W → Bool
  has_market ticker s = elim (c.look ticker s.markets) [ some m ↦ true | none ↦ false ]

  -- `GetAllMarkets`
  abbrev pub get_all_markets : State c.Store W → MarketMap
  get_all_markets s = c.entries s.markets

  unfoldable pub create_market : Market → Keeping (Unit {0})
  create_market market = do
    raise_if (← gets (has_market (ticker_string market))) market_already_exists
    set_market market

  unfoldable pub update_market : Market → Keeping (Unit {0})
  update_market market = do
    raise_if (not (← gets (has_market (ticker_string market)))) market_does_not_exist
    set_market market

  -- The rest of `DeleteMarket`, for a market that was found.
  abbrev pub delete_found :
      List (Market → Result KeeperError (Unit {0})) → Option Market → Keeping Bool
  delete_found hooks none = pure false
  delete_found hooks (some market) = do
    lift (run_hooks hooks market)
    modify (λ s. record s { markets = c.remove (ticker_string market) s.markets })
    pure true

  unfoldable pub delete_market : List (Market → Result KeeperError (Unit {0})) → Text → Keeping Bool
  delete_market hooks ticker = do
    found ← gets (λ s. c.look ticker s.markets)
    delete_found hooks found

  abbrev pub set_last_updated : ℕ → Keeping (Unit {0})
  set_last_updated height = modify (λ s. record s { last_updated = some height })

  abbrev pub set_params : Params → Keeping (Unit {0})
  set_params p = modify (λ s. record s { params = some p })

  -- `GetParams`
  abbrev pub get_params : Keeping Params
  get_params = do found ← gets (λ s. s.params); or_raise found not_found

  -- What `IsMarketValid` asks of one provider.
  abbrev pub check_provider : c.Store → Market → ProviderConfig → Result KeeperError (Unit {0})
  check_provider store market pc = elim pc.normalize_by_pair [
    | none ↦ ok tt
    | some cp ↦ elim (c.look (to_string cp) store) [
      | none ↦ err missing_normalize
      | some norm ↦
          if market.ticker.enabled && not norm.ticker.enabled then err disabled_normalize else ok tt
    ]
  ]

  abbrev pub check_providers :
      c.Store → Market → List ProviderConfig → Result KeeperError (Unit {0})
  check_providers store market [] = ok tt
  check_providers store market (pc ∷ pcs) = elim (check_provider store market pc) [
    | ok _ ↦ check_providers store market pcs
    | err e ↦ err e
  ]

  -- `IsMarketValid`
  unfoldable pub is_market_valid : c.Store → Market → Result KeeperError (Unit {0})
  is_market_valid store market = check_providers store market market.provider_configs

  -- `ValidateState`
  abbrev pub validate_state : c.Store → List Market → Result KeeperError (Unit {0})
  validate_state store [] = ok tt
  validate_state store (market ∷ updates) = elim (is_market_valid store market) [
    | ok _ ↦ validate_state store updates
    | err e ↦ err e
  ]
