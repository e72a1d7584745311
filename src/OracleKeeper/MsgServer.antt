-- ===== src/OracleKeeper/MsgServer.antt =====
-- x/oracle/keeper/msg_server.go and x/oracle/keeper/hooks.go.
pub mod Effects
use orynx.Prelude.{
  ℕ, ◌+◌, ◌<◌, ◌≤◌, ◌≡◌, ◌≢◌, refl, Bool, true, false, not, List, [], ◌∷◌, Option, none, some, Text,
  Text-discrete, ite, Result, ok, err, wrap_err, length, arith,
}
use orynx.Prelude.Action.{Action, ◌>>=◌, ◌>>◌, pure, raise, gets, raise_if, lift}
use orynx.CurrencyPair.{CurrencyPair, from_string, to_string}
use orynx.OracleKeeper.{
  PairStore, State, KeeperError, Keeping, has_currency_pair, create_currency_pair,
  remove_currency_pair, server_disabled, bad_authority, invalid_pair, pair_not_exist, find, u64_mod,
}

module _ (c : PairStore) where
  -- The loop of `AddCurrencyPairs`: a pair that is there is skipped.
  unfoldable pub add_each : List CurrencyPair → Keeping c (Unit {0})
  add_each [] = pure tt
  add_each (cp ∷ cps) = do
    has ← gets (has_currency_pair c cp)
    (elim has [ true ↦ pure tt | false ↦ create_currency_pair c cp ])
    add_each cps

  -- The loop of `RemoveCurrencyPairs`, over the strings of the pairs.
  unfoldable pub remove_each : List Text → Keeping c (Unit {0})
  remove_each [] = pure tt
  remove_each (id ∷ ids) = do
    cp ← lift (wrap_err invalid_pair (from_string id))
    remove_currency_pair c cp
    remove_each ids

  -- What both messages check first: the server is off if there is a market map keeper, and the signer
  -- is the authority of the module.
  abbrev pub check_authority : Bool → Text → Text → Keeping c (Unit {0})
  check_authority has_market_map authority signer = do
    raise_if has_market_map server_disabled
    raise_if (ite (Text-discrete signer authority) false true) bad_authority

  unfoldable pub add_currency_pairs : Bool → Text → Text → List CurrencyPair → Keeping c (Unit {0})
  add_currency_pairs has_market_map authority signer cps = do
    check_authority has_market_map authority signer
    add_each cps

  unfoldable pub remove_currency_pairs : Bool → Text → Text → List Text → Keeping c (Unit {0})
  remove_currency_pairs has_market_map authority signer ids = do
    check_authority has_market_map authority signer
    remove_each ids

  -- The hook of x/marketmap that runs after a market was created, on the pair of its ticker.
  unfoldable pub after_market_created : CurrencyPair → Keeping c (Unit {0})
  after_market_created cp = create_currency_pair c cp

  -- The hook that runs after the genesis of x/marketmap, on the pairs of its markets.
  unfoldable pub after_market_genesis : List CurrencyPair → Keeping c (Unit {0})
  after_market_genesis [] = pure tt
  after_market_genesis (cp ∷ cps) = do
    raise_if (not (← gets (has_currency_pair c cp))) pair_not_exist
    after_market_genesis cps
