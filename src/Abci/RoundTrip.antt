-- ===== src/Abci/RoundTrip.antt =====
-- A proposal that `PrepareProposalHandler` builds, as `ProcessProposalHandler` sees it
-- (abci/proposals/proposals.go).
use orynx.Prelude.{
  ◌+◌, ◌-◌, ◌≤◌, ◌≡◌, ◌≢◌, sym, [], ◌∷◌, some, Text, ok, arith, true, if◌then◌else◌, Result-cases,
  inl, inr, length,
}
use orynx.Abci.{ExtendedCommitInfo, Codec, vote_extensions_enabled}
use orynx.Abci.Proposals.{
  ProposalHandler, PrepareRequest, Txs, prepare_proposal, process_proposal, process_wrapped,
  extended_commit_tx, prune_and_validate, validate_extended_commit_info,
}
use orynx.Abci.Inject.{inject_and_resize_head}
use orynx.Abci.Pruning.{prune_and_validate_accepted}

-- `Decode` undoes `Encode`, and no encoding is empty.
pub record IsFaithful {A : Type 0} (codec : Codec A) : Type 0 where
  pub decode-encode : (a : A) {bz : Text} → codec.encode a ≡ ok bz → codec.decode bz ≡ ok a
  pub not_empty : (a : A) {bz : Text} → codec.encode a ≡ ok bz → bz ≢ []

module _ (h : ProposalHandler) where
  -- What is injected decodes to a commit info that is accepted, and it fits the block.
  pub extended_commit_tx-valid :
      (req : PrepareRequest) {bz : Text}
      → IsFaithful h.extended_commit_codec
      → extended_commit_tx h req ≡ ok bz
      → (info : ExtendedCommitInfo) × (h.extended_commit_codec.decode bz ≡ ok info)
        × (validate_extended_commit_info h info ≡ ok tt)
        × (bz ≢ [])
        × (length bz ≤ req.max_tx_bytes)
  unfolding extended_commit_tx
  extended_commit_tx-valid req {bz} f e =
      elim (Result-cases (prune_and_validate h req.local_last_commit)) [
        | inr (x, p) ↦ absurd (ground arith)
        | inl (info, p) ↦ elim (Result-cases (h.extended_commit_codec.encode info)) [
          | inr (x, q) ↦ absurd (ground arith)
          | inl (bz', q) ↦
              let same : bz' ≡ bz = ground arith in
              let accepted = (prune_and_validate_accepted h req.local_last_commit p).0 in
              (
                info,
                rw (sym same) (f.decode-encode info q),
                accepted,
                rw (sym same) (f.not_empty info q),
                ground arith,
              )
        ]
      ]

  -- Every proposal of an honest proposer passes the checks of the oracle handler: if vote extensions are
  -- enabled, the codec is faithful and `PrepareProposal` returns transactions, then the first of them is
  -- the commit info, and `ProcessProposal` of the same handler on them is the wrapped handler's verdict,
  -- which sees that transaction only if oracle data is retained.
  pub process_proposal-prepare_proposal :
      (req : PrepareRequest) {txs : Txs}
      → IsFaithful h.extended_commit_codec
      → vote_extensions_enabled h.ctx ≡ true
      → prepare_proposal h (some req) ≡ ok txs
      → (bz : Text) × (rest : Txs) × (txs ≡ bz ∷ rest)
        × (process_proposal h (some txs)
            ≡ process_wrapped h (if h.retain_oracle_data_in_wrapped_handler then txs else rest))
  unfolding prepare_proposal process_proposal
  process_proposal-prepare_proposal req {txs} f enabled e =
      elim (Result-cases (extended_commit_tx h req)) [
        | inr (x, p) ↦ absurd (ground arith)
        | inl (bz, p) ↦
            let (info, decoded, accepted, filled, fits) = extended_commit_tx-valid req f p in
            let inner = if h.retain_oracle_data_in_wrapped_handler then bz ∷ req.txs else req.txs in
            elim (Result-cases (h.prepare_proposal_handler (req.max_tx_bytes - length bz) inner)) [
              | inr (x, q) ↦ absurd (ground arith)
              | inl (resp, q) ↦
                  let (rest, r) =
                    inject_and_resize_head resp bz (req.max_tx_bytes - length bz + length bz) filled
                      (omega arith) in
                  (bz, rest, ground arith, ground arith)
            ]
      ]
