-- ===== src/MarketMap/Keeper/Genesis.antt =====
-- x/marketmap/types/genesis.go and params.go, and x/marketmap/keeper/genesis.go. A panic of
-- InitGenesis or ExportGenesis is the error `panicked`. Whether a text is an account address is a
-- parameter.
pub mod Exported
use orynx.Prelude.{
  ℕ, ◌≡◌, Bool, true, false, not, List, [], ◌∷◌, Option, none, some, Text, Result, ok, err, ◌>>=◌,
  ◌>>◌, fail_if, or_fail, wrap_err, is_ok, if◌then◌else◌,
}
use orynx.Prelude.Action.{Action}
use orynx.MarketMap.{Market, MarketMap, MarketError, is_member, validate_market_map}
use orynx.MarketMap.Store.{MapStore}
use orynx.MarketMap.Keeper.{
  State, Params, KeeperError, Keeping, create_market, set_last_updated, set_params, get_all_markets,
  panicked,
}

-- A list of authorities that is nil is `none`.
pub record GenesisState : Type 0 where
  pub market_map : MarketMap
  pub last_updated : ℕ
  pub market_authorities : Option (List Text)
  pub admin : Text

pub data GenesisError : Type 0 where
  nil_authorities duplicate_authority bad_authority bad_admin : GenesisError
  bad_map : MarketError → GenesisError

-- An empty list is decoded as nil.
abbrev pub decoded : List Text → Option (List Text)
decoded [] = none
decoded (a ∷ list) = some (a ∷ list)

abbrev pub encoded : Option (List Text) → List Text
encoded none = []
encoded (some list) = list

module _ (json_object is_address : Text → Bool) where
  -- The loop of `Params.ValidateBasic`.
  unfoldable pub validate_authorities : List Text → List Text → Result GenesisError (Unit {0})
  validate_authorities seen [] = ok tt
  validate_authorities seen (a ∷ list) = do
    fail_if (is_member a seen) duplicate_authority
    fail_if (not (is_address a)) bad_authority
    validate_authorities (a ∷ seen) list

  -- `Params.ValidateBasic`
  unfoldable pub validate_params : Option (List Text) → Text → Result GenesisError (Unit {0})
  validate_params authorities admin = do
    list ← or_fail authorities nil_authorities
    validate_authorities [] list
    fail_if (not (is_address admin)) bad_admin

  -- `GenesisState.ValidateBasic`
  unfoldable pub validate_genesis : GenesisState → Result GenesisError (Unit {0})
  validate_genesis gs = do
    wrap_err bad_map (validate_market_map json_object gs.market_map)
    validate_params gs.market_authorities gs.admin

module _ (c : MapStore Market) (W : Type 0) where
  -- The loop of `InitGenesis`.
  pub create_each : MarketMap → Keeping c W (Unit {0})
  create_each [] s = (ok tt, s)
  create_each ((key, market) ∷ entries) s =
      let (r, s') = create_market c W market s in
      elim r [ ok u ↦ create_each entries s' | err e ↦ (err panicked, s') ]

  -- `InitGenesis`, with the hook `AfterMarketGenesis` on the other modules' state; without hooks, it does
  -- nothing.
  unfoldable pub init_genesis :
      (Text → Bool)
      → (Text → Bool)
      → (MarketMap → Action W KeeperError (Unit {0}))
      → GenesisState
      → Keeping c W (Unit {0})
  init_genesis json_object is_address after_market_genesis gs s =
      if not (is_ok (validate_genesis json_object is_address gs))
      then (err panicked, s)
      else (let (r, s1) = create_each gs.market_map s in
          elim r [
            | err e ↦ (err e, s1)
            | ok u ↦
                let (q, w) = after_market_genesis gs.market_map s1.world in
                let p : Params = record {
                  market_authorities = encoded gs.market_authorities;
                  admin = gs.admin;
                } in
                (
                  wrap_err (λ e. panicked) q,
                  record s1 { last_updated = some gs.last_updated; params = some p; world = w },
                )
          ])

  -- `ExportGenesis`
  unfoldable pub export_genesis : State c.Store W → Result KeeperError GenesisState
  export_genesis s = do
    height ← or_fail s.last_updated panicked
    p ← or_fail s.params panicked
    ok (
        let gs : GenesisState = record {
          market_map = get_all_markets c W s;
          last_updated = height;
          market_authorities = decoded p.market_authorities;
          admin = p.admin;
        } in
        gs)
