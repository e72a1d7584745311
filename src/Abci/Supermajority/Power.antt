-- ===== src/Abci/Supermajority/Power.antt =====
-- The voting power behind an accepted commit (`ValidateVoteExtensions`, abci/ve/utils.go).
use orynx.Prelude.{
  ℕ, ◌+◌, ◌*◌, ◌^◌, ◌<◌, ◌≤◌, ◌≡◌, true, false, List, [], ◌∷◌, some, Text, All, ok, Option-cases,
  arith, Result-cases, inl, inr, if◌then◌else◌,
}
use orynx.Prelude.Int.{◌+ℤ◌}
use orynx.Prelude.Sums.{sum_by, sum_by_mono}
use orynx.Abci.{
  ExtendedVoteInfo, ExtendedCommitInfo, Context, vote_extensions_enabled, byte_length, content,
}
use orynx.Abci.Supermajority.{
  Signing, LastCommit, is_commit, check_signature, check_votes, check_power,
  validate_vote_extensions,
}

abbrev pub power_of : ExtendedVoteInfo → ℕ
power_of vote = vote.power

abbrev pub commit_power : ExtendedVoteInfo → ℕ
commit_power vote = if is_commit vote.block_id_flag then vote.power else 0

-- The signature of the vote is that of the validator on its extension in this round, if the store knows a
-- key of the validator.
abbrev pub IsSigned : Signing → ℕ → ExtendedVoteInfo → Type 0
IsSigned sig round vote =
    (proto : sig.KeyProto)
    → sig.get_pub_key vote.address ≡ some proto
    → (key : sig.Key) × (bz : Text) × (sig.key_from_proto proto ≡ some key)
      × (sig.sign_bytes (content vote.vote_extension) round ≡ some bz)
      × (sig.verify_signature key bz (content vote.extension_signature) ≡ true)

check_signature-IsSigned :
    (sig : Signing) (round : ℕ) (vote : ExtendedVoteInfo)
    → check_signature sig round vote ≡ ok tt
    → IsSigned sig round vote
unfolding check_signature
check_signature-IsSigned sig round vote e proto g = elim (Option-cases (sig.key_from_proto proto)) [
  | inl n ↦ absurd (ground arith)
  | inr (key, k) ↦ elim (Option-cases (sig.sign_bytes (content vote.vote_extension) round)) [
    | inl n ↦ absurd (ground arith)
    | inr (bz, b) ↦ (key, bz, k, b, ground arith)
  ]
]

-- A commit vote is signed, if the store knows a key, and any other vote carries nothing.
abbrev pub IsChecked : Signing → ℕ → ExtendedVoteInfo → Type 0
IsChecked sig round vote =
    (is_commit vote.block_id_flag ≡ true → IsSigned sig round vote)
    × (is_commit vote.block_id_flag ≡ false
        → (byte_length vote.vote_extension ≡ 0) × (byte_length vote.extension_signature ≡ 0))

check_votes-sums :
    (sig : Signing) (round total sum : ℕ) (votes : List ExtendedVoteInfo) {sums : ℕ × ℕ}
    → total + sum_by power_of votes < 2 ^ 62
    → sum + sum_by power_of votes < 2 ^ 62
    → check_votes sig true round total sum votes ≡ ok sums
    → (sums.0 ≡ total + sum_by power_of votes)
      × (sums.1 ≡ sum + sum_by commit_power votes)
      × All (IsChecked sig round) votes
unfolding check_votes
check_votes-sums sig round total sum [] h k e = ground arith
check_votes-sums sig round total sum (vote ∷ votes) {sums} h k e =
    let sum' = if is_commit vote.block_id_flag then sum + vote.power else sum in
    let small : sum' + sum_by power_of votes < 2 ^ 62 = ground (arith, k) in
    let rest : check_votes sig true round (total + vote.power) sum' votes ≡ ok sums =
      ground (arith, e, h, k) in
    let (t, s, a) =
      check_votes-sums sig round (total + vote.power) sum' votes {sums = sums} (omega (arith, h))
        small rest in
    let checked : IsChecked sig round vote =
      (λ h. check_signature-IsSigned sig round vote (ground (arith, e)), λ h. ground (arith, e)) in
    (omega (arith, t), ground (arith, s), (checked, a))

enough_power :
    (total sum : ℕ)
    → total < 2 ^ 62
    → sum ≤ total
    → check_power true (total, sum) ≡ ok tt
    → 2 * total < 3 * sum
unfolding ◌+ℤ◌
enough_power total sum h k e = ground (arith, e, h, k)

-- If the vote extensions are validated with extensions enabled, and the voting power of the commit is below
-- 2 ^ 62 (CometBFT keeps the total below 2 ^ 60), then the commit votes have more than two thirds of the
-- power of all votes, each of them is signed by its validator if the store knows a key, and no other vote
-- carries an extension or a signature.
pub validate_vote_extensions_supermajority :
    (sig : Signing) (ctx : Context) (lc : LastCommit) (ec : ExtendedCommitInfo)
    → vote_extensions_enabled ctx ≡ true
    → sum_by power_of ec.votes < 2 ^ 62
    → validate_vote_extensions sig ctx lc ec ≡ ok tt
    → (2 * sum_by power_of ec.votes < 3 * sum_by commit_power ec.votes)
      × All (IsChecked sig ec.round) ec.votes
unfolding validate_vote_extensions
validate_vote_extensions_supermajority sig ctx lc ec on h e =
    elim (Result-cases (check_votes sig true ec.round 0 0 ec.votes)) [
      | inr (x, p) ↦ absurd (ground arith)
      | inl (sums, p) ↦
          let (t, s, a) =
            check_votes-sums sig ec.round 0 0 ec.votes {sums = sums} (omega (arith, h))
              (omega (arith, h)) p in
          let enough : check_power true sums ≡ ok tt = ground (arith, e, on, p) in
          let enough' : check_power true (sum_by power_of ec.votes, sum_by commit_power ec.votes)
              ≡ ok tt =
            ground (arith, enough, t, s) in
          let less = sum_by_mono commit_power power_of ec.votes (λ vote. ground arith) in
          (enough_power (sum_by power_of ec.votes) (sum_by commit_power ec.votes) h less enough', a)
    ]
