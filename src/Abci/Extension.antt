-- ===== src/Abci/Extension.antt =====
-- abci/ve/vote_extension.go: a validator extends its vote with the prices of its oracle service, and
-- verifies the extensions of the others. The answer of the oracle service is a parameter.
pub mod Decimal
pub mod Written
pub mod Delta
pub mod Accepted
pub mod RoundTrip
pub mod Liveness
use orynx.Prelude.{
  ℕ, Bool, true, false, List, [], ◌∷◌, Option, none, some, Text, Result, ok, err, ◌==◌,
  if◌then◌else◌, ℕ_discrete, wrap_err,
}
use orynx.Prelude.Action.{
  Action, ◌>>=◌, ◌>>◌, pure, raise, lift, map_error, attempt, or_raise, gets,
}
use orynx.Prelude.Dict.{Dict, put}
use orynx.Prelude.Int.{ℤ}
use orynx.CurrencyPair.{CurrencyPair, PairError, from_string}
use orynx.OracleKeeper.{PairStore, State}
use orynx.Abci.{
  Context, Codec, OracleVoteExtension, AbciError, Bytes, byte_length, content, max_num_cp_error,
  validate_oracle_vote_extension,
}
use orynx.Abci.Strategies.{CurrencyPairStrategy, StrategyError}
use orynx.Abci.Applier.{
  Applied, ApplyError, PriceApplier, apply_prices_from_vote_extensions, bad_votes, write_failed,
  out_of_range, panicked,
}
use Decimal.{parse_decimal}

-- What `oracleClient.Prices` does: the prices of a response are decimal strings under pair strings.
pub data ClientAnswer : Type 0 where
  client_failed nil_response client_panicked : ClientAnswer
  prices_are : Dict Text Text → ClientAnswer

pub data ExtendError : Type 0 where
  nil_extend_request oracle_client_error extension_codec_error bad_decimal panic_error : ExtendError
  pre_block_error : ApplyError → ExtendError
  bad_pair : PairError → ExtendError

module _ {W : Type 0} (s : CurrencyPairStrategy W) where
  abbrev pub Writing : Type 0 → Type 0
  Writing = Action s.Cache ExtendError

  -- The id and the encoded price of a pair.
  abbrev pub write_entry : Context → W → CurrencyPair → ℤ → Action s.Cache StrategyError (ℕ × Text)
  write_entry ctx w cp price = do
    id ← s.id ctx cp w
    bz ← s.get_encoded_price ctx cp price w
    pure (id, bz)

  abbrev pub add_entry : Dict ℕ Text → Option (ℕ × Text) → Dict ℕ Text
  add_entry prices none = prices
  add_entry prices (some (id, bz)) = put ℕ_discrete id bz prices

  -- The loop of `transformOracleServicePrices`, from the prices so far.
  abbrev pub transform_prices : Context → W → Dict Text Text → Dict ℕ Text → Writing (Dict ℕ Text)
  transform_prices ctx w [] acc = pure acc
  transform_prices ctx w ((name, decimal) ∷ prices) acc = do
    cp ← map_error bad_pair (lift (from_string name))
    price ← or_raise (parse_decimal decimal) bad_decimal
    entry ← attempt (write_entry ctx w cp price)
    transform_prices ctx w prices (add_entry acc entry)

-- `VoteExtensionHandler`, its fields that stay the same.
pub record VoteExtensionHandler (c : PairStore) : Type 1 where
  pub own_strategy : CurrencyPairStrategy (State c.Store)
  pub extension_codec : Codec OracleVoteExtension
  pub price_applier : PriceApplier c

module _ (c : PairStore) (h : VoteExtensionHandler c) where
  -- The caches of the handler's strategy, and what its price applier changes.
  pub record Handling : Type 0 where
    pub own_cache : h.own_strategy.Cache
    pub applied : Applied c h.price_applier.strategy.Cache

  abbrev pub Extending : Type 0 → Type 0
  Extending = Action Handling ExtendError

  -- A panic in the applier is one of the handler.
  abbrev pub extend_error : ApplyError → ExtendError
  extend_error (bad_votes e) = pre_block_error (bad_votes e)
  extend_error (panicked e) = panic_error
  extend_error (write_failed e) = pre_block_error (write_failed e)
  extend_error out_of_range = panic_error

  abbrev pub apply_votes : Context → List Text → Extending (Unit {0})
  apply_votes ctx txs x =
      let (r, a) = apply_prices_from_vote_extensions c h.price_applier ctx txs x.applied in
      elim r [
        | ok prices ↦ (ok tt, record x { applied = a })
        | err e ↦ (err (extend_error e), record x { applied = a })
      ]

  abbrev pub ask_oracle : ClientAnswer → Extending (Dict Text Text)
  ask_oracle client_failed = raise oracle_client_error
  ask_oracle nil_response = raise oracle_client_error
  ask_oracle client_panicked = raise panic_error
  ask_oracle (prices_are prices) = pure prices

  -- `transformOracleServicePrices`
  abbrev pub transform_oracle_service_prices :
      Context → Dict Text Text → Extending OracleVoteExtension
  transform_oracle_service_prices ctx prices x =
      let (r, own) = transform_prices h.own_strategy ctx x.applied.chain prices [] x.own_cache in
      elim r [
        | ok entries ↦ (ok (record { prices = entries }), record x { own_cache = own })
        | err e ↦ (err e, record x { own_cache = own })
      ]

  abbrev pub encode_extension : OracleVoteExtension → Extending Text
  encode_extension extension =
      map_error (λ e. extension_codec_error) (lift (h.extension_codec.encode extension))

  -- The body of `ExtendVoteHandler`, without its deferred function.
  unfoldable pub extend_vote_body : Context → ClientAnswer → Option (List Text) → Extending Text
  extend_vote_body ctx client none = raise nil_extend_request
  extend_vote_body ctx client (some txs) = do
    apply_votes ctx txs
    prices ← ask_oracle client
    extension ← transform_oracle_service_prices ctx prices
    encode_extension extension

  -- The response and the error that leave the handler: only a panic is an error.
  abbrev pub respond : Result ExtendError Text → Option Text × Option ExtendError
  respond (ok bz) = (some bz, none)
  respond (err nil_extend_request) = (none, none)
  respond (err panic_error) = (some [], some panic_error)
  respond (err e) = (some [], none)

  -- `ExtendVoteHandler`
  unfoldable pub extend_vote :
      Context
      → ClientAnswer
      → Option (List Text)
      → Handling
      → (Option Text × Option ExtendError) × Handling
  extend_vote ctx client req x = let (r, x') = extend_vote_body ctx client req x in (respond r, x')

pub data VerifyStatus : Type 0 where
  accept_extension reject_extension : VerifyStatus

pub data VerifyError : Type 0 where
  nil_verify_request verify_codec_error : VerifyError
  invalid_extension : AbciError → VerifyError

abbrev max_failure : StrategyError → AbciError
max_failure e = max_num_cp_error

module _ (c : PairStore) (h : VoteExtensionHandler c) (ctx : Context) (s : State c.Store) where
  abbrev checked : Result AbciError (Unit {0}) → Option VerifyStatus × Option VerifyError
  checked (ok u) = (some accept_extension, none)
  checked (err e) = (some reject_extension, some (invalid_extension e))

  abbrev decoded : Result AbciError OracleVoteExtension → Option VerifyStatus × Option VerifyError
  decoded (err e) = (some reject_extension, some verify_codec_error)
  decoded (ok extension) = checked (
      validate_oracle_vote_extension (wrap_err max_failure (h.own_strategy.get_max_num_cp ctx s))
        extension)

  -- `VerifyVoteExtensionHandler`: the status of the response, and the error.
  unfoldable pub verify_vote_extension : Option Bytes → Option VerifyStatus × Option VerifyError
  verify_vote_extension none = (none, some nil_verify_request)
  verify_vote_extension (some bz) =
      if byte_length bz == 0
      then (some accept_extension, none)
      else decoded (h.extension_codec.decode (content bz))
