-- ===== src/MarketMap/Keeper/MsgServer.antt =====
-- x/marketmap/keeper/msg_server.go. Events are left out.
pub mod Sweep
pub mod Effects
pub mod Removal
pub mod Keyed
use orynx.Prelude.{
  ℕ, zero, suc, ◌≡◌, Bool, true, false, not, ◌&&◌, List, [], ◌∷◌, map, Option, none, some, Text,
  Text-discrete, Result, ok, err, ite, ltb, length, wrap_err, if◌then◌else◌,
}
use orynx.Prelude.Action.{Action, ◌>>=◌, ◌>>◌, pure, raise, gets, modify, raise_if, or_raise, lift}
use orynx.MarketMap.{Market, MarketMap, MarketError, is_member, ticker_string, validate_market_map}
use orynx.MarketMap.Store.{MapStore}
use orynx.MarketMap.Keeper.{
  State, Params, KeeperError, Keeping, get_params, set_params, has_market, create_market,
  update_market, delete_market, validate_state, set_last_updated, get_all_markets,
  not_market_authority, not_authority, not_admin, not_a_subset, panicked, invalid_map,
}

-- `types.MarketMapHooks` that the messages call, acting on the other modules' state.
pub record Hooks (W : Type 0) : Type 0 where
  pub after_market_created : Market → Action W KeeperError (Unit {0})
  pub after_market_updated : Market → Action W KeeperError (Unit {0})
  pub after_market_removed : Text → Action W KeeperError (Unit {0})

-- `checkMarketAuthority`
abbrev pub check_market_authority : Text → Params → Bool
check_market_authority authority p = is_member authority p.market_authorities

-- An authority that the loop below leaves in the slice.
abbrev keep : Text → Result KeeperError (List Text) → Result KeeperError (List Text)
keep a (ok rest) = ok (a ∷ rest)
keep a (err e) = err e

-- The loop of `RemoveMarketAuthorities`, which ranges over the slice that it deletes from. The first
-- argument is the number of iterations that are left, as many as the slice was long at the start; the
-- list is the current slice from the loop's index on. After a deletion the rest has moved up by one, so
-- the next iteration passes over an entry. Past the end of the current slice the loop reads the empty
-- string, with which `slices.Delete` fills what it frees; to delete that one is out of range.
unfoldable pub sweep : List Text → ℕ → List Text → Result KeeperError (List Text)
sweep removed zero rest = ok rest
sweep removed (suc n) [] = if is_member [] removed then err panicked else ok []
sweep removed (suc n) (a ∷ []) =
    let empty = sweep removed n [] in if is_member a removed then empty else keep a empty
sweep removed (suc n) (a ∷ b ∷ rest) =
    let shifted = sweep removed n rest in
    let next = sweep removed n (b ∷ rest) in
    if is_member a removed then keep b shifted else keep a next

module _ (c : MapStore Market) (W : Type 0) where
  -- `verifyMarketAuthorities`, which all four market messages call first.
  abbrev pub verify_market_authorities : Text → Keeping c W (Unit {0})
  verify_market_authorities authority = do
    p ← get_params c W
    raise_if (not (check_market_authority authority p)) not_market_authority

  -- A hook runs on the other modules' state.
  abbrev pub run_hook : Action W KeeperError (Unit {0}) → Keeping c W (Unit {0})
  run_hook hook s = let (r, w) = hook s.world in (r, record s { world = w })

  abbrev pub check_state : List Market → Keeping c W (Unit {0})
  check_state updates = do store ← gets (λ s. s.markets); lift (validate_state c W store updates)

  abbrev pub create_with_hook : Hooks W → Market → Keeping c W (Unit {0})
  create_with_hook hooks market = do
    create_market c W market
    run_hook (hooks.after_market_created market)

  abbrev pub update_with_hook : Hooks W → Market → Keeping c W (Unit {0})
  update_with_hook hooks market = do
    update_market c W market
    run_hook (hooks.after_market_updated market)

  abbrev pub upsert_market : Hooks W → Market → Keeping c W (Unit {0})
  upsert_market hooks market = do
    exists ← gets (has_market c W (ticker_string market))
    if exists then update_with_hook hooks market else create_with_hook hooks market

  abbrev pub for_each :
      {A : Type 0} → (A → Keeping c W (Unit {0})) → List A → Keeping c W (Unit {0})
  for_each f [] = pure tt
  for_each f (x ∷ xs) = do f x; for_each f xs

  -- What `UpsertMarkets`, `CreateMarkets` and `UpdateMarkets` share: the signer's check, the loop over the
  -- markets, the check of the state that results, and the height.
  abbrev pub change_markets :
      (Market → Keeping c W (Unit {0})) → ℕ → Text → List Market → Keeping c W (Unit {0})
  change_markets change height authority markets = do
    verify_market_authorities authority
    for_each change markets
    check_state markets
    set_last_updated c W height

  unfoldable pub upsert_markets : Hooks W → ℕ → Text → List Market → Keeping c W (Unit {0})
  upsert_markets hooks = change_markets (upsert_market hooks)

  unfoldable pub create_markets : Hooks W → ℕ → Text → List Market → Keeping c W (Unit {0})
  create_markets hooks = change_markets (create_with_hook hooks)

  unfoldable pub update_markets : Hooks W → ℕ → Text → List Market → Keeping c W (Unit {0})
  update_markets hooks = change_markets (update_with_hook hooks)

  -- `UpdateParams`
  unfoldable pub update_params : Text → Text → Params → Keeping c W (Unit {0})
  update_params authority signer p = do
    raise_if (ite (Text-discrete signer authority) false true) not_authority
    set_params c W p

  -- `RemoveMarketAuthorities`
  unfoldable pub remove_market_authorities : Text → List Text → Keeping c W (Unit {0})
  remove_market_authorities signer removed = do
    p ← get_params c W
    raise_if (ite (Text-discrete signer p.admin) false true) not_admin
    raise_if (ltb (length p.market_authorities) (length removed)) not_a_subset
    rest ← lift (sweep removed (length p.market_authorities) p.market_authorities)
    set_params c W (record p { market_authorities = rest })

  -- The loop of `RemoveMarkets`, which collects what was deleted.
  abbrev pub remove_each :
      Hooks W → List (Market → Result KeeperError (Unit {0})) → List Text → Keeping c W (List Text)
  remove_each hooks delete_hooks [] = pure []
  remove_each hooks delete_hooks (ticker ∷ tickers) = do
    deleted ← delete_market c W delete_hooks ticker
    run_hook (hooks.after_market_removed ticker)
    rest ← remove_each hooks delete_hooks tickers
    pure (if deleted then ticker ∷ rest else rest)

  -- `RemoveMarkets`, which checks the whole map that is left.
  unfoldable pub remove_markets :
      (Text → Bool)
      → Hooks W
      → List (Market → Result KeeperError (Unit {0}))
      → Text
      → List Text
      → Keeping c W (List Text)
  remove_markets json_object hooks delete_hooks authority tickers = do
    verify_market_authorities authority
    deleted ← remove_each hooks delete_hooks tickers
    all ← gets (get_all_markets c W)
    lift (wrap_err invalid_map (validate_market_map json_object all))
    pure deleted
