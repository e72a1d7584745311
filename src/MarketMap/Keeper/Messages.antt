-- ===== src/MarketMap/Keeper/Messages.antt =====
-- x/marketmap/types/msg.go: the checks of messages that need no state. Whether a text is an account
-- address is a parameter.
use orynx.Prelude.{
  ◌≡◌, ◌↔◌, refl, Bool, true, false, not, List, [], ◌∷◌, Option, Text, Result, ok, ◌>>=◌, ◌>>◌,
  fail_if, wrap_err, arith,
}
use orynx.CurrencyPair.{PairError, from_string}
use orynx.MarketMap.{Market, MarketError, is_member, ticker_string, validate_market}
use orynx.MarketMap.Keeper.Genesis.{GenesisError, validate_params}

pub data MessageError : Type 0 where
  bad_signer no_markets duplicate_ticker no_addresses duplicate_address bad_address : MessageError
  duplicate_market : MessageError
  bad_market : MarketError → MessageError
  bad_market_string : PairError → MessageError
  bad_params : GenesisError → MessageError

module _ (json_object is_address : Text → Bool) where
  abbrev pub check_signer : Text → Result MessageError (Unit {0})
  check_signer signer = fail_if (not (is_address signer)) bad_signer

  -- `len(...) == 0`
  abbrev pub is_none : {A : Type 0} → List A → Bool
  is_none [] = true
  is_none (x ∷ xs) = false

  -- The loop of `MsgUpsertMarkets.ValidateBasic`.
  pub check_upserts : List Text → List Market → Result MessageError (Unit {0})
  check_upserts seen [] = ok tt
  check_upserts seen (market ∷ markets) = do
    fail_if (is_member (ticker_string market) seen) duplicate_ticker
    wrap_err bad_market (validate_market json_object market)
    check_upserts (ticker_string market ∷ seen) markets

  unfoldable pub validate_upsert_markets : Text → List Market → Result MessageError (Unit {0})
  validate_upsert_markets authority markets = do
    check_signer authority
    fail_if (is_none markets) no_markets
    check_upserts [] markets

  -- The loops of `MsgCreateMarkets.ValidateBasic` and `MsgUpdateMarkets.ValidateBasic`.
  pub check_each_market : List Market → Result MessageError (Unit {0})
  check_each_market [] = ok tt
  check_each_market (market ∷ markets) = do
    wrap_err bad_market (validate_market json_object market)
    check_each_market markets

  unfoldable pub validate_create_markets : Text → List Market → Result MessageError (Unit {0})
  validate_create_markets authority markets = do
    check_signer authority
    fail_if (is_none markets) no_markets
    check_each_market markets

  unfoldable pub validate_update_markets : Text → List Market → Result MessageError (Unit {0})
  validate_update_markets authority markets = do
    check_signer authority
    fail_if (is_none markets) no_markets
    check_each_market markets

  -- `MsgParams.ValidateBasic`
  unfoldable pub validate_msg_params :
      Text → Option (List Text) → Text → Result MessageError (Unit {0})
  validate_msg_params authority authorities admin = do
    check_signer authority
    wrap_err bad_params (validate_params json_object is_address authorities admin)

  -- The loop of `MsgRemoveMarketAuthorities.ValidateBasic`.
  pub check_addresses : List Text → List Text → Result MessageError (Unit {0})
  check_addresses seen [] = ok tt
  check_addresses seen (a ∷ addresses) = do
    fail_if (is_member a seen) duplicate_address
    fail_if (not (is_address a)) bad_address
    check_addresses (a ∷ seen) addresses

  unfoldable pub validate_remove_market_authorities :
      Text → List Text → Result MessageError (Unit {0})
  validate_remove_market_authorities admin addresses = do
    check_signer admin
    fail_if (is_none addresses) no_addresses
    check_addresses [] addresses

  -- The loop of `MsgRemoveMarkets.ValidateBasic`.
  pub check_market_strings : List Text → List Text → Result MessageError (Unit {0})
  check_market_strings seen [] = ok tt
  check_market_strings seen (market ∷ markets) = do
    fail_if (is_member market seen) duplicate_market
    wrap_err bad_market_string (from_string market >>= λ cp. ok tt)
    check_market_strings (market ∷ seen) markets

  unfoldable pub validate_remove_markets : Text → List Text → Result MessageError (Unit {0})
  validate_remove_markets authority markets = do
    check_signer authority
    fail_if (is_none markets) no_markets
    check_market_strings [] markets

  -- Every market is valid, and its ticker is new.
  abbrev AreNew : List Text → List Market → Type 0
  AreNew seen [] = Unit
  AreNew seen (market ∷ markets) =
      (is_member (ticker_string market) seen ≡ false)
      × (validate_market json_object market ≡ ok tt)
      × AreNew (ticker_string market ∷ seen) markets

  check_upserts_iff :
      (seen : List Text) (markets : List Market)
      → (check_upserts seen markets ≡ ok tt) ↔ AreNew seen markets
  unfolding check_upserts
  check_upserts_iff seen [] = (λ h. tt, λ h. refl)
  check_upserts_iff seen (market ∷ markets) =
      ground (arith, check_upserts_iff (ticker_string market ∷ seen) markets)
