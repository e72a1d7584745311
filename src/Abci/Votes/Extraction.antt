-- ===== src/Abci/Votes/Extraction.antt =====
-- `GetOracleVotes` (abci/strategies/aggregator/vote_aggregator.go): the votes injected into a proposal.
use orynx.Prelude.{List, [], ◌∷◌, Text, Result, ok, err, ◌>>=◌, wrap_err}
use orynx.Abci.{
  Codec, ExtendedVoteInfo, ExtendedCommitInfo, OracleVoteExtension, AbciError, content, codec_error,
  missing_commit_info,
}

-- `Vote`
pub record Vote : Type 0 where
  pub cons_address : Text
  pub oracle_vote_extension : OracleVoteExtension

module _ (ve_codec : Codec OracleVoteExtension) (ext_commit_codec : Codec ExtendedCommitInfo) where
  abbrev codec_failure : AbciError → AbciError
  codec_failure e = codec_error

  -- The loop of `GetOracleVotes`.
  abbrev pub decode_votes : List ExtendedVoteInfo → Result AbciError (List Vote)
  decode_votes [] = ok []
  decode_votes (info ∷ infos) = do
    extension ← wrap_err codec_failure (ve_codec.decode (content info.vote_extension))
    votes ← decode_votes infos
    ok (record { cons_address = info.address; oracle_vote_extension = extension } ∷ votes)

  -- `GetOracleVotes`
  unfoldable pub get_oracle_votes : List Text → Result AbciError (List Vote)
  get_oracle_votes [] = err missing_commit_info
  get_oracle_votes (commit_info ∷ txs) = do
    info ← wrap_err codec_failure (ext_commit_codec.decode commit_info)
    decode_votes info.votes
