-- ===== src/Abci/Proposals.antt =====
-- abci/proposals/proposals.go and abci/proposals/validate.go. Latencies, logs and metrics are left
-- out. Transaction sizes and `MaxTxBytes` are numbers: an int64 sum of sizes does not wrap.
use orynx.Prelude.{
  ℕ, ◌+◌, ◌-◌, List, [], ◌∷◌, Option, none, some, Text, Text-discrete, Bool, true, false, not, ◌&&◌,
  ite, Result, ok, err, ◌>>=◌, ◌>>◌, fail_if, wrap_err, length, ltb, leb, if◌then◌else◌,
}
use orynx.Abci.{
  AbciError, Codec, Context, ExtendedVoteInfo, ExtendedCommitInfo, OracleVoteExtension, absent,
  content, vote_extensions_enabled, validate_oracle_vote_extension, codec_error,
  invalid_extended_commit, missing_commit_info, extension_too_large, wrapped_handler_error,
  nil_request,
}

abbrev pub Txs : Type 0
Txs = List Text

pub data Status : Type 0 where
  accept reject : Status

-- The fields of `ProposalHandler` at one context.
pub record ProposalHandler : Type 0 where
  pub ctx : Context
  -- `prepareProposalHandler`, from `MaxTxBytes` and the transactions of the request.
  pub prepare_proposal_handler : ℕ → Txs → Result AbciError Txs
  pub process_proposal_handler : Txs → Result AbciError Status
  pub validate_vote_extensions_fn : ExtendedCommitInfo → Result AbciError (Unit {0})
  pub vote_extension_codec : Codec OracleVoteExtension
  pub extended_commit_codec : Codec ExtendedCommitInfo
  -- `currencyPairStrategy.GetMaxNumCP`
  pub get_max_num_cp : Result AbciError ℕ
  pub retain_oracle_data_in_wrapped_handler : Bool

abbrev both_nil : ExtendedVoteInfo → Bool
both_nil vote = elim vote.vote_extension [
  | some bz ↦ false
  | none ↦ elim vote.extension_signature [ some bz ↦ false | none ↦ true ]
]

module _ (h : ProposalHandler) where
  unfoldable pub validate_vote_extension : ExtendedVoteInfo → Result AbciError (Unit {0})
  validate_vote_extension vote = if both_nil vote then ok tt else (do
    vote_ext ← h.vote_extension_codec.decode (content vote.vote_extension)
    validate_oracle_vote_extension h.get_max_num_cp vote_ext)

  abbrev pub validate_votes : List ExtendedVoteInfo → Result AbciError (Unit {0})
  validate_votes [] = ok tt
  validate_votes (vote ∷ votes) = do validate_vote_extension vote; validate_votes votes

  unfoldable pub validate_extended_commit_info : ExtendedCommitInfo → Result AbciError (Unit {0})
  validate_extended_commit_info info = do
    h.validate_vote_extensions_fn info
    validate_votes info.votes

  -- The vote of a validator whose vote extension is not valid is marked as absent.
  abbrev pub mark_absent : ExtendedVoteInfo → ExtendedVoteInfo
  mark_absent vote = record vote {
    block_id_flag = absent;
    extension_signature = none;
    vote_extension = none;
  }

  unfoldable pub prune_vote : ExtendedVoteInfo → ExtendedVoteInfo
  prune_vote vote = elim (validate_vote_extension vote) [ ok _ ↦ vote | err e ↦ mark_absent vote ]

  abbrev pub prune_votes : List ExtendedVoteInfo → List ExtendedVoteInfo
  prune_votes [] = []
  prune_votes (vote ∷ votes) = prune_vote vote ∷ prune_votes votes

  -- `PruneAndValidateExtendedCommitInfo`
  unfoldable pub prune_and_validate : ExtendedCommitInfo → Result AbciError ExtendedCommitInfo
  prune_and_validate info = do
    let pruned = let i : ExtendedCommitInfo = record info { votes = prune_votes info.votes } in i
    h.validate_vote_extensions_fn pruned
    ok pruned

-- The last loop of `injectAndResize`, from the number of consumed bytes.
abbrev pub fill : ℕ → ℕ → Txs → Txs
fill max consumed [] = []
fill max consumed (tx ∷ txs) =
    let consumed' = consumed + length tx in
    let rest = fill max consumed' txs in if ltb max consumed' then [] else tx ∷ rest

abbrev pub starts_with_tx : Text → Txs → Bool
starts_with_tx tx [] = false
starts_with_tx tx (t ∷ txs) = ite (Text-discrete t tx) true false

abbrev pub is_empty_tx : Text → Bool
is_empty_tx [] = true
is_empty_tx (b ∷ bz) = false

unfoldable pub inject_and_resize : Txs → Text → ℕ → Txs
inject_and_resize app_txs inject_tx max =
    if not (is_empty_tx inject_tx)
      && not (starts_with_tx inject_tx app_txs)
      && leb (length inject_tx) max
    then inject_tx ∷ fill max (length inject_tx) app_txs
    else fill max 0 app_txs

pub record PrepareRequest : Type 0 where
  pub max_tx_bytes : ℕ
  pub txs : Txs
  pub local_last_commit : ExtendedCommitInfo

module _ (h : ProposalHandler) where
  -- The bytes of the pruned commit info, which must fit the block.
  unfoldable pub extended_commit_tx : PrepareRequest → Result AbciError Text
  extended_commit_tx req = do
    ext_info ← wrap_err (λ e. invalid_extended_commit) (prune_and_validate h req.local_last_commit)
    bz ← wrap_err (λ e. codec_error) (h.extended_commit_codec.encode ext_info)
    fail_if (ltb req.max_tx_bytes (length bz)) extension_too_large
    ok bz

  -- The call of the wrapped handler, and the injection into what it returns.
  abbrev pub build_proposal : ℕ → Txs → Text → Result AbciError Txs
  build_proposal max txs bz = do
    resp ← wrap_err (λ e. wrapped_handler_error) (h.prepare_proposal_handler max txs)
    ok (inject_and_resize resp bz (max + length bz))

  -- `PrepareProposalHandler`: the transactions of the response. On an error the response has none.
  unfoldable pub prepare_proposal : Option PrepareRequest → Result AbciError Txs
  prepare_proposal none = err nil_request
  prepare_proposal (some req) =
      if vote_extensions_enabled h.ctx
      then (do
        bz ← extended_commit_tx req
        let txs = if h.retain_oracle_data_in_wrapped_handler then bz ∷ req.txs else req.txs
        build_proposal (req.max_tx_bytes - length bz) txs bz)
      else build_proposal req.max_tx_bytes req.txs []

  -- The call of the wrapped process handler.
  abbrev pub process_wrapped : Txs → Result AbciError Status
  process_wrapped txs = wrap_err (λ e. wrapped_handler_error) (h.process_proposal_handler txs)

  abbrev pub process_injected : Txs → Result AbciError Status
  process_injected [] = err missing_commit_info
  process_injected (ext_commit_bz ∷ txs) = do
    ext_info ← wrap_err (λ e. codec_error) (h.extended_commit_codec.decode ext_commit_bz)
    wrap_err (λ e. invalid_extended_commit) (validate_extended_commit_info h ext_info)
    process_wrapped (if h.retain_oracle_data_in_wrapped_handler then ext_commit_bz ∷ txs else txs)

  -- `ProcessProposalHandler`: an error of its own checks comes with the status `reject`.
  unfoldable pub process_proposal : Option Txs → Result AbciError Status
  process_proposal none = err nil_request
  process_proposal (some txs) =
      if vote_extensions_enabled h.ctx then process_injected txs else process_wrapped txs
