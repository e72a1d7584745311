-- ===== src/Abci/Supermajority/Agreement.antt =====
-- The agreement of an extended commit with the last commit (`ValidateExtendedCommitAgainstLastCommit`,
-- abci/ve/utils.go).
use orynx.Prelude.{
  ◌<◌, ◌≡◌, ◌≢◌, ◌↔◌, ◌⊎◌, refl, true, false, List, [], ◌∷◌, Text, All, ok, arith, length,
}
use orynx.Abci.{ExtendedVoteInfo, ExtendedCommitInfo, BlockIdFlag, byte_length}
use orynx.Abci.Supermajority.{
  LastVote, LastCommit, is_pruned, is_above, in_order, is_sorted, same_flag, seen_address,
  check_agreement, validate_against_last_commit,
}

-- The order of byte strings, a prefix before what it is a prefix of.
abbrev pub IsAtMost : Text → Text → Type 0
IsAtMost [] b = Unit
IsAtMost (x ∷ a) [] = ⊥
IsAtMost (x ∷ a) (y ∷ b) = (x < y) ⊎ ((x ≡ y) × IsAtMost a b)

-- More power comes first, and among equal powers the lower address.
abbrev pub IsBefore : ExtendedVoteInfo → ExtendedVoteInfo → Type 0
IsBefore a b = (b.power < a.power) ⊎ ((a.power ≡ b.power) × IsAtMost a.address b.address)

abbrev pub AreOrdered : List ExtendedVoteInfo → Type 0
AreOrdered [] = Unit
AreOrdered (a ∷ []) = Unit
AreOrdered (a ∷ b ∷ votes) = IsBefore a b × AreOrdered (b ∷ votes)

is_above_iff : (a b : Text) → (is_above a b ≡ false) ↔ IsAtMost a b
is_above_iff [] b = (λ e. tt, λ h. refl)
is_above_iff (x ∷ a) [] = ground arith
is_above_iff (x ∷ a) (y ∷ b) = ground (arith, is_above_iff a b)

in_order_iff : (a b : ExtendedVoteInfo) → (in_order a b ≡ true) ↔ IsBefore a b
in_order_iff a b = ground (arith, is_above_iff a.address b.address)

is_sorted_iff : (votes : List ExtendedVoteInfo) → (is_sorted votes ≡ true) ↔ AreOrdered votes
is_sorted_iff [] = (λ e. tt, λ h. refl)
is_sorted_iff (a ∷ []) = (λ e. tt, λ h. refl)
is_sorted_iff (a ∷ b ∷ votes) = ground (arith, in_order_iff a b, is_sorted_iff (b ∷ votes))

seen_address_iff :
    (a : Text) (seen : List Text) → (seen_address a seen ≡ false) ↔ All (λ b. a ≢ b) seen
unfolding seen_address
seen_address_iff a [] = (λ e. tt, λ h. refl)
seen_address_iff a (b ∷ seen) = ground (arith, seen_address_iff a seen)

-- The vote is marked absent and carries nothing.
abbrev pub IsPruned : ExtendedVoteInfo → Type 0
IsPruned vote =
    (vote.block_id_flag ≡ BlockIdFlag.absent)
    × (byte_length vote.vote_extension ≡ 0)
    × (byte_length vote.extension_signature ≡ 0)

is_pruned_iff : (vote : ExtendedVoteInfo) → (is_pruned vote ≡ true) ↔ IsPruned vote
is_pruned_iff vote = ground arith

-- Two votes of the same validator with the same power, and the same flag unless the first was pruned.
abbrev pub IsSameVote : ExtendedVoteInfo → LastVote → Type 0
IsSameVote vote last =
    (vote.address ≡ last.address)
    × (vote.power ≡ last.power)
    × (IsPruned vote ⊎ (vote.block_id_flag ≡ last.block_id_flag))

-- The votes agree one by one, and no address comes twice.
abbrev pub AreSameVotes : List Text → List ExtendedVoteInfo → List LastVote → Type 0
AreSameVotes seen [] [] = Unit
AreSameVotes seen [] (last ∷ lasts) = ⊥
AreSameVotes seen (vote ∷ votes) [] = ⊥
AreSameVotes seen (vote ∷ votes) (last ∷ lasts) =
    All (λ b. vote.address ≢ b) seen
    × IsSameVote vote last
    × AreSameVotes (vote.address ∷ seen) votes lasts

same_flag_iff : (a b : BlockIdFlag) → (same_flag a b ≡ true) ↔ (a ≡ b)
same_flag_iff a b = ground arith

check_agreement_iff :
    (seen : List Text) (votes : List ExtendedVoteInfo) (lasts : List LastVote)
    → length votes ≡ length lasts
    → (check_agreement seen votes lasts ≡ ok tt) ↔ AreSameVotes seen votes lasts
unfolding check_agreement
check_agreement_iff seen [] [] h = (λ e. tt, λ e. refl)
check_agreement_iff seen [] (last ∷ lasts) h = absurd (omega (arith, h))
check_agreement_iff seen (vote ∷ votes) [] h = absurd (omega (arith, h))
check_agreement_iff seen (vote ∷ votes) (last ∷ lasts) h = ground (
  arith,
  seen_address_iff vote.address seen,
  is_pruned_iff vote,
  same_flag_iff vote.block_id_flag last.block_id_flag,
  check_agreement_iff (vote.address ∷ seen) votes lasts (omega (arith, h)),
)

AreSameVotes-length :
    (seen : List Text) (votes : List ExtendedVoteInfo) (lasts : List LastVote)
    → AreSameVotes seen votes lasts
    → length votes ≡ length lasts
AreSameVotes-length seen [] [] h = refl
AreSameVotes-length seen [] (last ∷ lasts) h = absurd h
AreSameVotes-length seen (vote ∷ votes) [] h = absurd h
AreSameVotes-length seen (vote ∷ votes) (last ∷ lasts) h =
    omega (arith, AreSameVotes-length (vote.address ∷ seen) votes lasts h.2)

-- An extended commit is accepted against the last commit exactly when the rounds are equal, its votes are
-- in the order of falling power and, among equal powers, of rising address, no address comes twice, and it
-- has the votes of the last commit in their order: the same address and power, and the same flag unless the
-- vote was pruned.
pub validate_against_last_commit_iff :
    (ec : ExtendedCommitInfo) (lc : LastCommit)
    → (validate_against_last_commit ec lc ≡ ok tt)
      ↔ ((ec.round ≡ lc.round) × AreOrdered ec.votes × AreSameVotes [] ec.votes lc.votes)
unfolding validate_against_last_commit
validate_against_last_commit_iff ec lc = (
  λ (e : validate_against_last_commit ec lc ≡ ok tt).
      ground (arith, is_sorted_iff ec.votes, check_agreement_iff [] ec.votes lc.votes),
  λ h. ground (
    arith,
    h,
    is_sorted_iff ec.votes,
    check_agreement_iff [] ec.votes lc.votes,
    AreSameVotes-length [] ec.votes lc.votes,
  ),
)
