-- ===== src/Abci/Strategies/Reader.antt =====
-- abci/strategies/currencypair/: what a strategy reads of the oracle module, and the parts of the
-- strategies that need no cache. The `big.Int` codec of math/big is a parameter.
use orynx.Prelude.{
  ℕ, ◌+◌, ◌%◌, Bool, true, false, List, Option, Text, Result, ok, err, ◌>>=◌, ◌>>◌, fail_if,
  wrap_err, if◌then◌else◌,
}
use orynx.Prelude.Int.{ℤ, pos, negsuc}
use orynx.CurrencyPair.{CurrencyPair}
use orynx.OracleKeeper.{PairStore, State, QuotePrice, KeeperError, u64_mod}
use orynx.OracleKeeper.Queries.{
  get_price_for_currency_pair, get_id_for_currency_pair, get_currency_pair_from_id,
  get_all_currency_pairs, get_num_currency_pairs, get_num_removed_currency_pairs,
}
use orynx.Abci.{Context, ExecMode, prepare_mode, process_mode, finalize_mode, other_mode}

-- The interface `OracleKeeper`, its reads: what the ABCI code sees of the oracle module.
pub record OracleReader (W : Type 0) : Type 0 where
  pub id_of : CurrencyPair → W → Option ℕ
  pub pair_from_id : ℕ → W → Option CurrencyPair
  pub price_of : CurrencyPair → W → Result KeeperError QuotePrice
  pub num_pairs : W → Result KeeperError ℕ
  pub num_removed : W → Result KeeperError ℕ
  pub all_pairs : W → List CurrencyPair

-- The interface met by the keeper of x/oracle.
abbrev pub keeper_reader : (c : PairStore) → OracleReader (State c.Store)
keeper_reader c = record {
  id_of = get_id_for_currency_pair c;
  pair_from_id = get_currency_pair_from_id c;
  price_of = get_price_for_currency_pair c;
  num_pairs = get_num_currency_pairs c;
  num_removed = get_num_removed_currency_pairs c;
  all_pairs = get_all_currency_pairs c;
}

pub data StrategyError : Type 0 where
  unknown_pair unknown_id negative_price gob_error hash_error : StrategyError
  price_bytes_too_long : StrategyError
  keeper_failure : KeeperError → StrategyError

-- `GobEncode` and `GobDecode` of `big.Int`.
pub record Gob : Type 0 where
  pub gob_encode : ℤ → Result StrategyError Text
  pub gob_decode : Text → Result StrategyError ℤ

-- `price.Sign() < 0`
abbrev pub is_negative : ℤ → Bool
is_negative (pos n) = false
is_negative (negsuc n) = true

-- The mode is that of a check of the votes of the previous block.
abbrev pub counts_removed : ExecMode → Bool
counts_removed prepare_mode = true
counts_removed process_mode = true
counts_removed finalize_mode = false
counts_removed other_mode = false

-- The price that `getOnChainPrice` reads from the state: 0 if there is none yet.
abbrev pub state_price : Result KeeperError QuotePrice → Result StrategyError ℤ
state_price (ok quote) = ok quote.price
state_price (err KeeperError.price_not_exist) = ok (pos 0)
state_price (err e) = err (keeper_failure e)

module _ {W : Type 0} (k : OracleReader W) where
  -- `(*DefaultCurrencyPairStrategy).GetMaxNumCP`; the sum is of type `uint64`.
  unfoldable pub default_max_num_cp : Context → W → Result StrategyError ℕ
  default_max_num_cp ctx w = do
    current ← wrap_err keeper_failure (k.num_pairs w)
    if counts_removed ctx.exec_mode
        then (do
          removed ← wrap_err keeper_failure (k.num_removed w)
          ok ((current + removed) % u64_mod))
        else ok current

module _ (gob : Gob) where
  -- `(*DefaultCurrencyPairStrategy).GetEncodedPrice`
  unfoldable pub default_encoded_price : ℤ → Result StrategyError Text
  default_encoded_price price = do fail_if (is_negative price) negative_price; gob.gob_encode price

  -- `(*DefaultCurrencyPairStrategy).GetDecodedPrice`
  unfoldable pub default_decoded_price : Text → Result StrategyError ℤ
  default_decoded_price bz = do
    price ← gob.gob_decode bz
    fail_if (is_negative price) negative_price
    ok price
