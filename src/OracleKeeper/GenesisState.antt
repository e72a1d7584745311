-- ===== src/OracleKeeper/GenesisState.antt =====
-- The genesis of x/oracle and its validation: x/oracle/types/genesis.go and
-- x/oracle/types/currency_pair_state.go.
use orynx.Prelude.{
  ℕ, Bool, true, false, not, List, [], ◌∷◌, Option, Text, Text-discrete, ite, leb, ◌==◌, ◌&&◌,
  Result, ok, ◌>>◌, fail_if, wrap_err, ℕ_discrete,
}
use orynx.CurrencyPair.{CurrencyPair, validate_basic, to_string}
use orynx.OracleKeeper.{
  CurrencyPairState, QuotePrice, KeeperError, invalid_genesis, invalid_pair, is_some,
  new_currency_pair_state,
}

pub record CurrencyPairGenesis : Type 0 where
  pub currency_pair : CurrencyPair
  pub currency_pair_price : Option QuotePrice
  pub nonce : ℕ
  pub id : ℕ

pub record GenesisState : Type 0 where
  pub currency_pair_genesis : List CurrencyPairGenesis
  pub next_id : ℕ

-- `CurrencyPairState.ValidateBasic`
unfoldable pub validate_state : CurrencyPairState → Result KeeperError (Unit {0})
validate_state cps = do
  fail_if (not (is_some cps.price) && not (cps.nonce == 0)) invalid_genesis
  fail_if (is_some cps.price && (cps.nonce == 0)) invalid_genesis

-- `CurrencyPairGenesis.ValidateBasic`
unfoldable pub validate_entry : CurrencyPairGenesis → Result KeeperError (Unit {0})
validate_entry cpg = do
  wrap_err invalid_pair (validate_basic cpg.currency_pair)
  fail_if (not (is_some cpg.currency_pair_price) && not (cpg.nonce == 0)) invalid_genesis

abbrev pub has_id : ℕ → List ℕ → Bool
has_id i [] = false
has_id i (j ∷ ids) = ite (ℕ_discrete i j) true (has_id i ids)

abbrev pub has_key : Text → List Text → Bool
has_key k [] = false
has_key k (j ∷ keys) = ite (Text-discrete k j) true (has_key k keys)

-- The loop of `GenesisState.Validate`, with the ids and the strings that were seen.
unfoldable pub validate_from :
    ℕ → List ℕ → List Text → List CurrencyPairGenesis → Result KeeperError (Unit {0})
validate_from next ids cps [] = ok tt
validate_from next ids cps (cpg ∷ rest) = do
  let key = to_string cpg.currency_pair
  validate_entry cpg
  fail_if (leb next cpg.id) invalid_genesis
  fail_if (has_id cpg.id ids) invalid_genesis
  fail_if (has_key key cps) invalid_genesis
  validate_from next (cpg.id ∷ ids) (key ∷ cps) rest

unfoldable pub validate : GenesisState → Result KeeperError (Unit {0})
validate gs = validate_from gs.next_id [] [] gs.currency_pair_genesis

abbrev pub state_of : CurrencyPairGenesis → CurrencyPairState
state_of cpg = new_currency_pair_state cpg.id cpg.nonce cpg.currency_pair_price
