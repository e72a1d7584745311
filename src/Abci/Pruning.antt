-- ===== src/Abci/Pruning.antt =====
-- `PruneAndValidateExtendedCommitInfo` (abci/proposals/validate.go).
use orynx.Prelude.{
  ◌≡◌, ◌≢◌, refl, List, [], ◌∷◌, none, Result, ok, err, arith, Result-cases, inl, inr,
}
use orynx.Abci.{AbciError, ExtendedVoteInfo, ExtendedCommitInfo, absent}
use orynx.Abci.Proposals.{
  ProposalHandler, validate_vote_extension, validate_votes, validate_extended_commit_info,
  mark_absent, prune_vote, prune_votes, prune_and_validate,
}

module _ (h : ProposalHandler) where
  absent_valid : (vote : ExtendedVoteInfo) → validate_vote_extension h (mark_absent h vote) ≡ ok tt
  unfolding validate_vote_extension
  absent_valid vote = refl

  prune_vote-valid :
      (vote : ExtendedVoteInfo) → validate_vote_extension h (prune_vote h vote) ≡ ok tt
  unfolding prune_vote
  prune_vote-valid vote = ground (arith, absent_valid vote)

  prune_votes-valid :
      (votes : List ExtendedVoteInfo) → validate_votes h (prune_votes h votes) ≡ ok tt
  prune_votes-valid [] = refl
  prune_votes-valid (vote ∷ votes) = ground (arith, prune_vote-valid vote, prune_votes-valid votes)

  -- How a vote comes out of the pruning: a valid one as it was, any other one as absent, with neither
  -- extension nor signature.
  abbrev IsPruned : ExtendedVoteInfo → ExtendedVoteInfo → Type 0
  IsPruned vote vote' =
      (validate_vote_extension h vote ≡ ok tt → vote' ≡ vote)
      × (validate_vote_extension h vote ≢ ok tt
          → (vote'.address ≡ vote.address)
            × (vote'.power ≡ vote.power)
            × (vote'.vote_extension ≡ none)
            × (vote'.extension_signature ≡ none)
            × (vote'.block_id_flag ≡ absent))

  abbrev pub ArePruned : List ExtendedVoteInfo → List ExtendedVoteInfo → Type 0
  ArePruned [] [] = Unit
  ArePruned [] (w ∷ ws) = ⊥
  ArePruned (v ∷ vs) [] = ⊥
  ArePruned (v ∷ vs) (w ∷ ws) = IsPruned v w × ArePruned vs ws

  prune_votes-ArePruned : (votes : List ExtendedVoteInfo) → ArePruned votes (prune_votes h votes)
  unfolding prune_vote
  prune_votes-ArePruned [] = tt
  prune_votes-ArePruned (vote ∷ votes) = (
    (λ e. ground arith, λ n. pruned n (validate_vote_extension h vote) refl),
    prune_votes-ArePruned votes,
  )
    where
      pruned :
          validate_vote_extension h vote ≢ ok tt
          → (r : Result AbciError (Unit {0})) → validate_vote_extension h vote ≡ r
          → ((prune_vote h vote).address ≡ vote.address)
            × ((prune_vote h vote).power ≡ vote.power)
            × ((prune_vote h vote).vote_extension ≡ none)
            × ((prune_vote h vote).extension_signature ≡ none)
            × ((prune_vote h vote).block_id_flag ≡ absent)
      pruned n (ok tt) e = absurd (n e)
      pruned n (err x) e = ground arith

  abbrev pruned_info : ExtendedCommitInfo → ExtendedCommitInfo
  pruned_info info = record info { votes = prune_votes h info.votes }

  -- What a proposer injects passes the check of the validators: if the pruning succeeds, its result is
  -- accepted by `ValidateExtendedCommitInfo` of the same handler, and it has the votes of the commit in
  -- their order, the valid ones as they were and every other one as absent.
  pub prune_and_validate_accepted :
      (info : ExtendedCommitInfo) {info' : ExtendedCommitInfo}
      → prune_and_validate h info ≡ ok info'
      → (validate_extended_commit_info h info' ≡ ok tt)
        × (info'.round ≡ info.round)
        × ArePruned info.votes info'.votes
  unfolding prune_and_validate validate_extended_commit_info
  prune_and_validate_accepted info {info'} e =
      elim (Result-cases (h.validate_vote_extensions_fn (pruned_info info))) [
        | inl (u, q) ↦
            ground (arith, prune_votes-valid info.votes, prune_votes-ArePruned info.votes)
        | inr (x, q) ↦ absurd (ground arith)
      ]
