-- ===== src/Abci/Supermajority.antt =====
-- `ValidateVoteExtensions` and `ValidateExtendedCommitAgainstLastCommit` (abci/ve/utils.go). The sums of
-- voting power are int64 values, kept as their 64 bits; the public keys and signatures are parameters.
pub mod Power
pub mod Agreement
use orynx.Prelude.{
  ℕ, ◌+◌, ◌-◌, ◌*◌, ◌/◌, ◌%◌, ◌^◌, Bool, true, false, not, ◌&&◌, ◌||◌, List, [], ◌∷◌, Option, none,
  some, Text, Text-discrete, Result, ok, err, ◌>>=◌, ◌>>◌, fail_if, or_fail, length, ltb, leb, ◌==◌,
  ite, if◌then◌else◌,
}
use orynx.Prelude.Int.{ℤ, pos, negsuc, ◌+ℤ◌, ltb_ℤ, leb_ℤ}
use orynx.Abci.{
  AbciError, ExtendedVoteInfo, ExtendedCommitInfo, BlockIdFlag, Context, byte_length, content,
  vote_extensions_enabled, round_mismatch, length_mismatch, not_sorted, duplicate_address,
  address_mismatch, power_mismatch, flag_mismatch, missing_signature, unexpected_extension,
  unexpected_signature, bad_public_key, sign_bytes_error, bad_signature, no_power,
  insufficient_power,
}

-- What the code uses of `ValidatorStore`, cryptoenc, protoio and the public key of a validator, at the
-- height and chain of the context. `sign_bytes` marshals the canonical vote extension of a round.
pub record Signing : Type 1 where
  pub KeyProto : Type 0
  pub Key : Type 0
  pub get_pub_key : Text → Option KeyProto
  pub key_from_proto : KeyProto → Option Key
  pub sign_bytes : Text → ℕ → Option Text
  pub verify_signature : Key → Text → Text → Bool

pub record LastVote : Type 0 where
  pub address : Text
  pub power : ℕ
  pub block_id_flag : BlockIdFlag

pub record LastCommit : Type 0 where
  pub round : ℕ
  pub votes : List LastVote

-- Addition on int64, as 64 bits, and the number that 64 bits stand for.
abbrev pub add_int64 : ℕ → ℕ → ℕ
add_int64 a b = (a + b) % 2 ^ 64

abbrev pub to_int64 : ℕ → ℤ
to_int64 n = if ltb n (2 ^ 63) then pos n else negsuc (2 ^ 64 - n - 1)

-- Division by 3, which Go rounds towards zero.
abbrev pub third : ℤ → ℤ
third (pos n) = pos (n / 3)
third (negsuc n) = if leb 2 n then negsuc ((n + 1) / 3 - 1) else pos 0

abbrev pub required_power : ℕ → ℤ
required_power total = third (to_int64 (add_int64 total total)) +ℤ pos 1

abbrev pub is_commit : BlockIdFlag → Bool
is_commit BlockIdFlag.commit = true
is_commit _ = false

abbrev pub is_absent : BlockIdFlag → Bool
is_absent BlockIdFlag.absent = true
is_absent _ = false

-- Which bytes a vote may carry, with vote extensions enabled or not.
abbrev pub check_presence : Bool → ExtendedVoteInfo → Result AbciError (Unit {0})
check_presence true vote = do
  fail_if (is_commit vote.block_id_flag && byte_length vote.extension_signature == 0)
      missing_signature
  fail_if (not (is_commit vote.block_id_flag) && not (byte_length vote.vote_extension == 0))
      unexpected_extension
  fail_if (not (is_commit vote.block_id_flag) && not (byte_length vote.extension_signature == 0))
      unexpected_signature
check_presence false vote = do
  fail_if (not (byte_length vote.vote_extension == 0)) unexpected_extension
  fail_if (not (byte_length vote.extension_signature == 0)) unexpected_signature

-- The signature check of a commit vote, which a validator without a key in the store passes.
unfoldable pub check_signature : Signing → ℕ → ExtendedVoteInfo → Result AbciError (Unit {0})
check_signature sig round vote = elim (sig.get_pub_key vote.address) [
  | none ↦ ok tt
  | some proto ↦ do
    key ← or_fail (sig.key_from_proto proto) bad_public_key
    bz ← or_fail (sig.sign_bytes (content vote.vote_extension) round) sign_bytes_error
    fail_if (not (sig.verify_signature key bz (content vote.extension_signature))) bad_signature
]

-- The loop over the votes, from the two sums.
unfoldable pub check_votes :
    Signing → Bool → ℕ → ℕ → ℕ → List ExtendedVoteInfo → Result AbciError (ℕ × ℕ)
check_votes sig enabled round total sum [] = ok (total, sum)
check_votes sig enabled round total sum (vote ∷ votes) =
    let total' = add_int64 total vote.power in
    let counted = enabled && is_commit vote.block_id_flag in
    let sum' = if counted then add_int64 sum vote.power else sum in
    let rest = check_votes sig enabled round total' sum' votes in
    (do
      check_presence enabled vote
      (if counted then check_signature sig round vote else ok tt)
      rest)

abbrev pub check_power : Bool → ℕ × ℕ → Result AbciError (Unit {0})
check_power enabled (total, sum) = do
  fail_if (leb_ℤ (to_int64 total) (pos 0)) no_power
  fail_if (enabled && ltb_ℤ (to_int64 sum) (required_power total)) insufficient_power

-- `bytes.Compare(a, b) > 0`
abbrev pub is_above : Text → Text → Bool
is_above [] b = false
is_above (x ∷ a) [] = true
is_above (x ∷ a) (y ∷ b) =
    let rest = is_above a b in if ltb y x then true else (if x == y then rest else false)

-- Two neighbours are in order: more power first, and among equal powers by address.
abbrev pub in_order : ExtendedVoteInfo → ExtendedVoteInfo → Bool
in_order a b =
    if a.power == b.power then not (is_above a.address b.address) else ltb b.power a.power

-- `slices.IsSortedFunc` with the comparison of the code.
abbrev pub is_sorted : List ExtendedVoteInfo → Bool
is_sorted [] = true
is_sorted (a ∷ []) = true
is_sorted (a ∷ b ∷ votes) = in_order a b && is_sorted (b ∷ votes)

unfoldable pub seen_address : Text → List Text → Bool
seen_address a [] = false
seen_address a (b ∷ seen) = ite (Text-discrete a b) true (seen_address a seen)

abbrev pub same_flag : BlockIdFlag → BlockIdFlag → Bool
same_flag BlockIdFlag.unknown BlockIdFlag.unknown = true
same_flag BlockIdFlag.absent BlockIdFlag.absent = true
same_flag BlockIdFlag.commit BlockIdFlag.commit = true
same_flag BlockIdFlag.nil_vote BlockIdFlag.nil_vote = true
same_flag _ _ = false

-- A vote as the pruning leaves it.
abbrev pub is_pruned : ExtendedVoteInfo → Bool
is_pruned vote =
    is_absent vote.block_id_flag
    && (byte_length vote.vote_extension == 0 && byte_length vote.extension_signature == 0)

-- The loop over both lists of votes, which are equally long.
unfoldable pub check_agreement :
    List Text → List ExtendedVoteInfo → List LastVote → Result AbciError (Unit {0})
check_agreement seen [] lasts = ok tt
check_agreement seen (vote ∷ votes) [] = err length_mismatch
check_agreement seen (vote ∷ votes) (last ∷ lasts) = do
  fail_if (seen_address vote.address seen) duplicate_address
  fail_if (ite (Text-discrete vote.address last.address) false true) address_mismatch
  fail_if (not (vote.power == last.power)) power_mismatch
  fail_if (not (is_pruned vote) && not (same_flag vote.block_id_flag last.block_id_flag))
      flag_mismatch
  check_agreement (vote.address ∷ seen) votes lasts

unfoldable pub validate_against_last_commit :
    ExtendedCommitInfo → LastCommit → Result AbciError (Unit {0})
validate_against_last_commit ec lc = do
  fail_if (not (ec.round == lc.round)) round_mismatch
  fail_if (not (length ec.votes == length lc.votes)) length_mismatch
  fail_if (not (is_sorted ec.votes)) not_sorted
  check_agreement [] ec.votes lc.votes

unfoldable pub validate_vote_extensions :
    Signing → Context → LastCommit → ExtendedCommitInfo → Result AbciError (Unit {0})
validate_vote_extensions sig ctx lc ec = do
  validate_against_last_commit ec lc
  let enabled = vote_extensions_enabled ctx
  sums ← check_votes sig enabled ec.round 0 0 ec.votes
  check_power enabled sums

-- `NewDefaultValidateVoteExtensionsFn`
unfoldable pub default_validate_vote_extensions_fn :
    Signing → Context → LastCommit → ExtendedCommitInfo → Result AbciError (Unit {0})
unfolding validate_vote_extensions
default_validate_vote_extensions_fn sig ctx lc ec =
    if vote_extensions_enabled ctx then validate_vote_extensions sig ctx lc ec else ok tt
