-- ===== src/Abci.antt =====
-- abci/: the data that the vote-extension and proposal handlers share. A Go byte slice that may be nil
-- is `none` where it is nil; a `uint64` id is a number; a voting power is a number, since CometBFT
-- admits none below zero.
pub mod Proposals
pub mod Inject
pub mod Pruning
pub mod RoundTrip
pub mod Supermajority
pub mod Strategies
pub mod Votes
pub mod Applier
pub mod Codecs
pub mod Extension
pub mod PreBlock
mod Tests
mod PriceTests
mod StrategyTests
use orynx.Prelude.{
  ℕ, ◌≡◌, List, [], ◌∷◌, Option, none, some, Text, Result, ok, err, length, Bool, true, false, not,
  ◌&&◌, ltb, leb, ◌==◌, fail_if, ◌>>=◌, ◌>>◌,
}
use orynx.Prelude.Dict.{Dict}

abbrev pub Bytes : Type 0
Bytes = Option Text

-- `len` of a slice, which is 0 for nil.
abbrev pub byte_length : Bytes → ℕ
byte_length none = 0
byte_length (some bz) = length bz

-- The bytes that a function reads from a slice.
abbrev pub content : Bytes → Text
content none = []
content (some bz) = bz

pub data BlockIdFlag : Type 0 where
  unknown absent commit nil_vote : BlockIdFlag

-- `cometabci.ExtendedVoteInfo`, with the validator's fields.
pub record ExtendedVoteInfo : Type 0 where
  pub address : Text
  pub power : ℕ
  pub vote_extension : Bytes
  pub extension_signature : Bytes
  pub block_id_flag : BlockIdFlag

-- `cometabci.ExtendedCommitInfo`
pub record ExtendedCommitInfo : Type 0 where
  pub round : ℕ
  pub votes : List ExtendedVoteInfo

-- `vetypes.OracleVoteExtension`: id -> price bytes.
pub record OracleVoteExtension : Type 0 where
  pub prices : Dict ℕ Text

pub data AbciError : Type 0 where
  codec_error max_num_cp_error too_many_prices price_too_long : AbciError
  missing_commit_info nil_request invalid_extended_commit wrapped_handler_error : AbciError
  extension_too_large : AbciError
  round_mismatch length_mismatch not_sorted duplicate_address : AbciError
  address_mismatch power_mismatch flag_mismatch : AbciError
  missing_signature unexpected_extension unexpected_signature : AbciError
  bad_public_key sign_bytes_error bad_signature no_power insufficient_power : AbciError

-- `VoteExtensionCodec` and `ExtendedCommitCodec` (abci/strategies/codec/codec.go).
pub record Codec (A : Type 0) : Type 0 where
  pub encode : A → Result AbciError Text
  pub decode : Text → Result AbciError A

-- abci/types/constants.go
abbrev pub maximum_price_size : ℕ
maximum_price_size = 33

-- The values of `sdk.ExecMode` that the code tells apart.
pub data ExecMode : Type 0 where
  prepare_mode process_mode finalize_mode other_mode : ExecMode

-- What the code reads of `sdk.Context`: the height and the time of the block header, the mode, and
-- `Abci.VoteExtensionsEnableHeight` of the consensus parameters, `none` if these have no ABCI part.
pub record Context : Type 0 where
  pub block_height : ℕ
  pub block_time : ℕ
  pub exec_mode : ExecMode
  pub enable_height : Option ℕ

-- `VoteExtensionsEnabled` (abci/ve/utils.go)
unfoldable pub vote_extensions_enabled : Context → Bool
vote_extensions_enabled ctx = elim ctx.enable_height [
  | none ↦ false
  | some h ↦ not (h == 0) && not (leb ctx.block_height 1) && ltb h ctx.block_height
]

-- The loop over the prices in `ValidateOracleVoteExtension`.
abbrev pub check_sizes : Dict ℕ Text → Result AbciError (Unit {0})
check_sizes [] = ok tt
check_sizes ((id, bz) ∷ ps) = do
  fail_if (ltb maximum_price_size (length bz)) price_too_long
  check_sizes ps

-- `ValidateOracleVoteExtension` (abci/ve/utils.go); the first argument is `strategy.GetMaxNumCP`.
unfoldable pub validate_oracle_vote_extension :
    Result AbciError ℕ → OracleVoteExtension → Result AbciError (Unit {0})
validate_oracle_vote_extension get_max_num_cp ve = do
  max_num_cp ← get_max_num_cp
  fail_if (ltb max_num_cp (length ve.prices)) too_many_prices
  check_sizes ve.prices
