-- ===== src/Abci/Extension/Accepted.antt =====
-- The vote extension of a validator, as the others verify it (abci/ve/vote_extension.go).
use orynx.Prelude.{
  ℕ, ◌≤◌, ◌≡◌, ◌∙◌, refl, sym, List, [], ◌∷◌, none, some, Text, Text-discrete, Result, ok, err,
  wrap_err, arith, length, inl, inr, Option-cases, Result-cases, ℕ_discrete,
}
use orynx.Prelude.Dict.{Dict, get, IsMap}
use orynx.Prelude.Int.{ℤ}
use orynx.CurrencyPair.{CurrencyPair}
use orynx.Median.{Prices}
use orynx.OracleKeeper.{PairStore, State}
use orynx.OracleKeeper.Invariant.{Inv}
use orynx.OracleKeeper.Ids.{IsUsedId, length-used_ids}
use orynx.Abci.{Context, AbciError, check_sizes, maximum_price_size, validate_oracle_vote_extension}
use orynx.Abci.RoundTrip.{IsFaithful}
use orynx.Abci.Strategies.{CurrencyPairStrategy}
use orynx.Abci.Applier.{apply_prices_from_vote_extensions, Applied}
use orynx.Abci.Extension.{
  VoteExtensionHandler, Handling, extend_vote, extend_vote_body, verify_vote_extension, prices_are,
  accept_extension, respond, ExtendError, nil_extend_request, oracle_client_error,
  extension_codec_error, bad_decimal, panic_error, pre_block_error, bad_pair,
}
use orynx.Abci.Extension.Written.{
  WriteMeaning, written_entry, written_prices, transform_prices_lem, IsOffered, IsWritten,
  written_prices-explained, written_prices-IsMap,
}

check_sizes_lem :
    (ps : Dict ℕ Text)
    → IsMap ℕ_discrete ps
    → ((id : ℕ) (bz : Text) → get ℕ_discrete id ps ≡ some bz → length bz ≤ maximum_price_size)
    → check_sizes ps ≡ ok tt
unfolding get
check_sizes_lem [] i h = refl
check_sizes_lem ((id, bz) ∷ ps) i h =
    ground (arith, h id bz, check_sizes_lem ps i.1 (λ j b e. h j b (ground (arith, i.0))))

-- A written map has entries of tracked pairs and of bounded size only, so it passes the checks.
module _ {W : Type 0} {s : CurrencyPairStrategy W} {ctx : Context} {w : W}
    (m : WriteMeaning s ctx w) where
  abbrev pub HasShortPrices : Dict Text Text → Type 0
  HasShortPrices offered =
      (cp : CurrencyPair) (p : ℤ) (bz : Text)
      → IsOffered m offered cp p
      → m.encoded_at cp p ≡ some bz
      → length bz ≤ maximum_price_size

  pub entry_parts :
      (cp : CurrencyPair) (p : ℤ) {id : ℕ} {bz : Text}
      → written_entry m cp p ≡ some (id, bz)
      → (m.id_at cp ≡ some id) × (m.encoded_at cp p ≡ some bz)
  entry_parts cp p {id} {bz} e = elim (Option-cases (m.id_at cp)) [
    | inl n ↦ absurd (ground arith)
    | inr (i, n) ↦ elim (Option-cases (m.encoded_at cp p)) [
      | inl d ↦ absurd (ground arith)
      | inr (b, d) ↦ ground arith
    ]
  ]

  module _ (c : PairStore) (s' : State c.Store) where
    pub written_prices-valid :
        (offered : Dict Text Text) (n : ℕ) {entries : Dict ℕ Text}
        → IsMap Text-discrete offered
        → written_prices m offered [] ≡ ok entries
        → HasShortPrices offered
        → ((cp : CurrencyPair) (id : ℕ) → m.id_at cp ≡ some id → IsUsedId c s' id)
        → Inv c s'
        → length (c.entries s'.store) ≤ n
        → validate_oracle_vote_extension (ok n) (record { prices = entries }) ≡ ok tt
    unfolding validate_oracle_vote_extension get
    written_prices-valid offered n {entries} i e short used inv room =
        let i' = written_prices-IsMap m offered [] {out = entries} tt e in
        let said : (id : ℕ) (bz : Text)
            → get ℕ_discrete id entries ≡ some bz
            → IsWritten m offered id bz =
          λ id bz. written_prices-explained m offered id bz {out = entries} i e in
        let few = length-used_ids c entries s' inv i' (λ id n.
          elim (Option-cases (get ℕ_discrete id entries)) [
            | inl q ↦ absurd (n q)
            | inr (bz, q) ↦
                let (cp, p, o, e') = said id bz q in used cp id (entry_parts cp p {bz = bz} e').0
          ]) in
        let sizes = check_sizes_lem entries i' (λ id bz g.
          let (cp, p, o, e') = said id bz g in short cp p bz o (entry_parts cp p {id = id} e').1) in
        ground (arith, few, sizes)

module _ (c : PairStore) (h : VoteExtensionHandler c) where
  -- An error other than a panic leaves an empty vote extension.
  respond_empty : (e : ExtendError) {bz : Text} → respond c h (err e) ≡ (some bz, none) → bz ≡ []
  respond_empty nil_extend_request {bz} q = absurd (ground arith)
  respond_empty oracle_client_error {bz} q = ground arith
  respond_empty extension_codec_error {bz} q = ground arith
  respond_empty bad_decimal {bz} q = ground arith
  respond_empty panic_error {bz} q = absurd (ground arith)
  respond_empty (pre_block_error e) {bz} q = ground arith
  respond_empty (bad_pair e) {bz} q = ground arith

  verify_vote_extension-empty :
      (ctx : Context) (s : State c.Store) (bz : Text)
      → bz ≡ []
      → verify_vote_extension c h ctx s (some (some bz)) ≡ (some accept_extension, none)
  unfolding verify_vote_extension
  verify_vote_extension-empty ctx s bz e = ground arith

  abbrev pub codec_failure : AbciError → ExtendError
  codec_failure e = extension_codec_error

  abbrev pub encoded : Result ExtendError (Dict ℕ Text) → Result ExtendError Text
  encoded (err e) = err e
  encoded (ok entries) =
      wrap_err codec_failure (h.extension_codec.encode (record { prices = entries }))

  -- What the handler returns once the votes are applied and the oracle service has answered.
  pub extend_vote_lem :
      (ctx : Context) (txs : List Text) (offered : Dict Text Text) (x : Handling c h)
      (a : Applied c h.price_applier.strategy.Cache) {prices : Prices}
      → apply_prices_from_vote_extensions c h.price_applier ctx txs x.applied ≡ (ok prices, a)
      → (m : WriteMeaning h.own_strategy ctx a.chain) → m.IsGood x.own_cache
      → (extend_vote c h ctx (prices_are offered) (some txs) x).0
        ≡ respond c h (encoded (written_prices m offered []))
  unfolding extend_vote extend_vote_body
  extend_vote_lem ctx txs offered x a {prices} applied m g =
      let (same, g') = transform_prices_lem m offered [] x.own_cache g in
      elim (Result-cases (written_prices m offered [])) [
        | inr (y, p) ↦ ground (arith, applied, same, p)
        | inl (entries, p) ↦
            elim (Result-cases (h.extension_codec.encode (record { prices = entries }))) [
              | inr (y, q) ↦ ground (arith, applied, same, p, q)
              | inl (bz, q) ↦ ground (arith, applied, same, p, q)
            ]
      ]

  -- A validator's own vote extension is accepted by every other validator: if the votes of the proposal
  -- were applied, the oracle service answered with a map, the validator's strategy writes the same at every
  -- call and its cache is good, and the handler returned a vote extension without an error, then
  -- `VerifyVoteExtension` accepts it. This is so on a state that keeps the invariant and has the ids
  -- of the state that the extension was written on, if the codec is faithful, no price is encoded to more
  -- than 33 bytes, and the limit is no less than the number of pairs.
  pub verify_vote_extension-extend_vote :
      (ctx ctx' : Context) (txs : List Text) (offered : Dict Text Text) (x : Handling c h)
      (a : Applied c h.price_applier.strategy.Cache) (s' : State c.Store) (n : ℕ) {prices : Prices}
      {bz : Text}
      → apply_prices_from_vote_extensions c h.price_applier ctx txs x.applied ≡ (ok prices, a)
      → (m : WriteMeaning h.own_strategy ctx a.chain) → m.IsGood x.own_cache
      → IsMap Text-discrete offered
      → HasShortPrices m offered
      → ((cp : CurrencyPair) (id : ℕ) → m.id_at cp ≡ some id → IsUsedId c s' id)
      → Inv c s'
      → h.own_strategy.get_max_num_cp ctx' s' ≡ ok n
      → length (c.entries s'.store) ≤ n
      → IsFaithful h.extension_codec
      → (extend_vote c h ctx (prices_are offered) (some txs) x).0 ≡ (some bz, none)
      → verify_vote_extension c h ctx' s' (some (some bz)) ≡ (some accept_extension, none)
  unfolding verify_vote_extension
  verify_vote_extension-extend_vote ctx ctx' txs offered x a s' n {prices} {bz} applied m g i short
        used inv max room f e =
      let answer = sym (extend_vote_lem ctx txs offered x a applied m g) ∙ e in
      elim (Result-cases (written_prices m offered [])) [
        | inr (y, p) ↦
            verify_vote_extension-empty ctx' s' bz (respond_empty y (ground (arith, answer, p)))
        | inl (entries, p) ↦
            elim (Result-cases (h.extension_codec.encode (record { prices = entries }))) [
              | inr (y, q) ↦
                  verify_vote_extension-empty ctx' s' bz
                    (respond_empty extension_codec_error (ground (arith, answer, p, q)))
              | inl (bz', q) ↦
                  let valid = written_prices-valid m c s' offered n i p short used inv room in
                  ground (
                    arith,
                    answer,
                    p,
                    q,
                    valid,
                    max,
                    f.decode-encode (record { prices = entries }) q,
                    f.not_empty (record { prices = entries }) q,
                  )
            ]
      ]
