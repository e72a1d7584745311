-- ===== src/Abci/Tests.antt =====
-- Runs of abci/proposals and abci/ve/utils.go on small commits, with a codec and a signature scheme of their own.
use orynx.Prelude.{
  ℕ, ◌≡◌, ◌≢◌, ◌≤◌, refl, List, [], ◌∷◌, Option, none, some, Text, codes, Result, ok, err, true,
  false, arith,
}
use orynx.Prelude.{◌*◌, ◌<◌, ◌↔◌, All, Text-discrete}
use orynx.Prelude.Sums.{sum_by}
use orynx.Prelude.Int.{◌+ℤ◌}
use orynx.Abci.{insufficient_power, other_mode}
use orynx.Abci.Supermajority.{
  Signing, LastCommit, validate_vote_extensions, validate_against_last_commit, check_agreement,
  seen_address, check_votes, check_signature, check_power,
}
use orynx.Abci.Supermajority.Power.{
  power_of, commit_power, IsChecked, validate_vote_extensions_supermajority,
}
use orynx.Abci.Supermajority.Agreement.{AreSameVotes, AreOrdered, validate_against_last_commit_iff}
use orynx.Abci.{
  ExtendedVoteInfo, ExtendedCommitInfo, AbciError, Codec, BlockIdFlag, absent, commit, codec_error,
  vote_extensions_enabled, validate_oracle_vote_extension, too_many_prices,
}
use orynx.Abci.Proposals.{
  ProposalHandler, PrepareRequest, Txs, accept, prepare_proposal, process_proposal, process_wrapped,
  prune_and_validate, inject_and_resize, validate_extended_commit_info, validate_vote_extension,
  prune_vote, extended_commit_tx,
}
use orynx.Abci.Inject.{total_bytes, total_bytes-inject_and_resize}
use orynx.Abci.Pruning.{ArePruned, prune_and_validate_accepted}
use orynx.Abci.RoundTrip.{IsFaithful, process_proposal-prepare_proposal}

-- A codec for commits whose only vote was pruned.
abbrev encode_fields :
    ℕ → ℕ → Text → Option Text → Option Text → BlockIdFlag → Result AbciError Text
encode_fields round power address none none absent = ok (round ∷ power ∷ address)
encode_fields round power address _ _ _ = err codec_error

abbrev encode_votes : ℕ → List ExtendedVoteInfo → Result AbciError Text
encode_votes round [] = err codec_error
encode_votes round (v ∷ []) =
    encode_fields round v.power v.address v.vote_extension v.extension_signature v.block_id_flag
encode_votes round (v ∷ w ∷ vs) = err codec_error

abbrev pruned_vote : ℕ → Text → ExtendedVoteInfo
pruned_vote power address = record {
  address = address;
  power = power;
  vote_extension = none;
  extension_signature = none;
  block_id_flag = absent;
}

abbrev decode_commit : Text → Result AbciError ExtendedCommitInfo
decode_commit [] = err codec_error
decode_commit (r ∷ []) = err codec_error
decode_commit (r ∷ p ∷ a) = ok (record { round = r; votes = pruned_vote p a ∷ [] })

abbrev commit_codec : Codec ExtendedCommitInfo
commit_codec = record {
  encode = λ info. encode_votes info.round info.votes;
  decode = decode_commit;
}

decode-encode_votes :
    (info : ExtendedCommitInfo) (votes : List ExtendedVoteInfo) {bz : Text}
    → info.votes ≡ votes
    → encode_votes info.round votes ≡ ok bz
    → decode_commit bz ≡ ok info
decode-encode_votes info [] p e = absurd ground arith
decode-encode_votes info (v ∷ []) p e = ground arith
decode-encode_votes info (v ∷ w ∷ vs) p e = absurd ground arith

encode_votes_filled :
    (round : ℕ) (votes : List ExtendedVoteInfo) {bz : Text}
    → encode_votes round votes ≡ ok bz
    → bz ≢ []
encode_votes_filled round [] e q = ground arith
encode_votes_filled round (v ∷ []) e q = ground arith
encode_votes_filled round (v ∷ w ∷ vs) e q = ground arith

commit_codec-IsFaithful : IsFaithful commit_codec
commit_codec-IsFaithful = record {
  decode-encode = λ info e. decode-encode_votes info info.votes refl e;
  not_empty = λ info e. encode_votes_filled info.round info.votes e;
}

abbrev handler : ProposalHandler
handler = record {
  ctx = record {
    block_height = 10;
    block_time = 0;
    exec_mode = other_mode;
    enable_height = some 5;
  };
  prepare_proposal_handler = λ max txs. ok txs;
  process_proposal_handler = λ txs. ok accept;
  validate_vote_extensions_fn = λ info. ok tt;
  vote_extension_codec = record { encode = λ ve. err codec_error; decode = λ bz. err codec_error };
  extended_commit_codec = commit_codec;
  get_max_num_cp = ok 10;
  retain_oracle_data_in_wrapped_handler = false;
}

abbrev one_vote : ExtendedCommitInfo
one_vote = record {
  round = 2;
  votes =
      record {
        address = codes "v";
        power = 10;
        vote_extension = some (codes "x");
        extension_signature = some (codes "s");
        block_id_flag = commit;
      }
      ∷ [];
}

abbrev request : PrepareRequest
request = record { max_tx_bytes = 100; txs = codes "tx1" ∷ []; local_last_commit = one_vote }

abbrev commit_tx : Text
commit_tx = 2 ∷ 10 ∷ codes "v"

prepared : prepare_proposal handler (some request) ≡ ok (commit_tx ∷ codes "tx1" ∷ [])
unfolding prepare_proposal vote_extensions_enabled extended_commit_tx prune_and_validate prune_vote
    validate_vote_extension inject_and_resize
prepared = ground arith

pruned :
    prune_and_validate handler one_vote
    ≡ ok (record { round = 2; votes = pruned_vote 10 (codes "v") ∷ [] })
unfolding prune_and_validate prune_vote validate_vote_extension
pruned = refl

enabled : vote_extensions_enabled handler.ctx ≡ true
unfolding vote_extensions_enabled
enabled = refl

too_many :
    validate_oracle_vote_extension (ok 0) (record { prices = (1, codes "p") ∷ [] })
    ≡ err too_many_prices
unfolding validate_oracle_vote_extension
too_many = refl

process_proposal-prepare_proposal_example :
    (bz : Text) × (rest : Txs) × (commit_tx ∷ codes "tx1" ∷ [] ≡ bz ∷ rest)
    × (process_proposal handler (some (commit_tx ∷ codes "tx1" ∷ []))
        ≡ process_wrapped handler rest)
process_proposal-prepare_proposal_example =
    process_proposal-prepare_proposal handler request commit_codec-IsFaithful enabled prepared

prune_and_validate_accepted_example :
    let info' : ExtendedCommitInfo = record {
      round = 2;
      votes = pruned_vote 10 (codes "v") ∷ [];
    } in
    (validate_extended_commit_info handler info' ≡ ok tt)
    × (info'.round ≡ one_vote.round)
    × ArePruned handler one_vote.votes info'.votes
prune_and_validate_accepted_example = prune_and_validate_accepted handler one_vote pruned

total_bytes-inject_and_resize_example :
    total_bytes (inject_and_resize (codes "tx1" ∷ codes "tx2" ∷ []) commit_tx 7) ≤ 7
total_bytes-inject_and_resize_example =
    total_bytes-inject_and_resize (codes "tx1" ∷ codes "tx2" ∷ []) commit_tx 7

-- A store that knows every validator's key, and a scheme whose only signature is "s".
abbrev signing : Signing
signing = record {
  KeyProto = Text;
  Key = Text;
  get_pub_key = λ address. some address;
  key_from_proto = λ proto. some proto;
  sign_bytes = λ extension round. some extension;
  verify_signature = λ key bz signature. elim (Text-discrete signature (codes "s")) [
    | yes p ↦ true
    | no n ↦ false
  ];
}

abbrev two_votes : ExtendedCommitInfo
two_votes = record {
  round = 2;
  votes =
      record {
        address = codes "v";
        power = 21;
        vote_extension = some (codes "x");
        extension_signature = some (codes "s");
        block_id_flag = commit;
      }
      ∷ pruned_vote 10 (codes "w")
      ∷ [];
}

abbrev last_commit : LastCommit
last_commit = record {
  round = 2;
  votes =
      record { address = codes "v"; power = 21; block_id_flag = commit }
      ∷ record { address = codes "w"; power = 10; block_id_flag = commit }
      ∷ [];
}

two_votes_valid : validate_vote_extensions signing handler.ctx last_commit two_votes ≡ ok tt
unfolding validate_vote_extensions validate_against_last_commit check_agreement seen_address
    check_votes check_signature vote_extensions_enabled ◌+ℤ◌
two_votes_valid = ground arith

-- Half of the power is not enough.
half_of_power : check_power true (20, 10) ≡ err insufficient_power
unfolding ◌+ℤ◌
half_of_power = refl

validate_vote_extensions_supermajority_example :
    (2 * sum_by power_of two_votes.votes < 3 * sum_by commit_power two_votes.votes)
    × All (IsChecked signing two_votes.round) two_votes.votes
validate_vote_extensions_supermajority_example =
    validate_vote_extensions_supermajority signing handler.ctx last_commit two_votes enabled
      (omega arith) two_votes_valid

validate_against_last_commit_iff_example :
    (validate_against_last_commit two_votes last_commit ≡ ok tt) ↔ (
      (two_votes.round ≡ last_commit.round)
      × AreOrdered two_votes.votes
      × AreSameVotes [] two_votes.votes last_commit.votes)
validate_against_last_commit_iff_example = validate_against_last_commit_iff two_votes last_commit
