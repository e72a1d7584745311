-- ===== src/Abci/Extension/Liveness.antt =====
-- `ExtendVoteHandler` (abci/ve/vote_extension.go) on every path: it answers whatever fails below it.
use orynx.Prelude.{
  ℕ, ◌≡◌, ◌≢◌, ◌⊎◌, refl, List, [], ◌∷◌, Option, none, some, Text, Result, ok, err, arith, inl, inr,
  Result-cases, Option-cases,
}
use orynx.Prelude.Action.{Action, ◌>>=◌, lift, map_error, attempt, or_raise}
use orynx.Prelude.Dict.{Dict}
use orynx.Prelude.Int.{ℤ}
use orynx.CurrencyPair.{CurrencyPair, from_string}
use orynx.OracleKeeper.{PairStore}
use orynx.Abci.{Context, OracleVoteExtension}
use orynx.Abci.Strategies.{CurrencyPairStrategy}
use orynx.Abci.Applier.{
  ApplyError, apply_prices_from_vote_extensions, bad_votes, panicked, write_failed, out_of_range,
}
use orynx.Abci.Extension.{
  VoteExtensionHandler, Handling, Extending, ClientAnswer, client_failed, nil_response,
  client_panicked, prices_are, ExtendError, nil_extend_request, oracle_client_error,
  extension_codec_error, bad_decimal, panic_error, pre_block_error, bad_pair, extend_vote,
  extend_vote_body, transform_prices, write_entry, apply_votes, ask_oracle, extend_error,
  encode_extension, transform_oracle_service_prices, add_entry, respond,
}
use orynx.Abci.Extension.Decimal.{parse_decimal}

-- The step never ends with the error of a missing request.
abbrev Answers : {S A : Type 0} → Action S ExtendError A → Type 0
Answers {S} m = (s : S) → (m s).0 ≢ err nil_extend_request

bind-Answers :
    {S A B : Type 0} (m : Action S ExtendError A) (f : A → Action S ExtendError B)
    → Answers m
    → ((a : A) → Answers (f a))
    → Answers (m >>= f)
bind-Answers m f h g s e = elim (Result-cases (m s).0) [
  | inl (a, p) ↦ g a (m s).1 (ground arith)
  | inr (x, p) ↦ h s (ground arith)
]

attempt-Answers : {S A F : Type 0} (m : Action S F A) → Answers (attempt {E = ExtendError} m)
attempt-Answers m s e = elim (Result-cases (m s).0) [
  | inl (a, p) ↦ ground arith
  | inr (x, p) ↦ ground arith
]

transform_prices-Answers :
    {W : Type 0} (s : CurrencyPairStrategy W) (ctx : Context) (w : W) (prices : Dict Text Text)
    (acc : Dict ℕ Text)
    → Answers (transform_prices s ctx w prices acc)
transform_prices-Answers s ctx w [] acc = λ c e. ground arith
transform_prices-Answers s ctx w ((name, decimal) ∷ prices) acc =
    let store : Option (ℕ × Text) → Action s.Cache ExtendError (Dict ℕ Text) =
      λ entry. transform_prices s ctx w prices (add_entry s acc entry) in
    let with_price : CurrencyPair → ℤ → Action s.Cache ExtendError (Dict ℕ Text) =
      λ cp price. attempt (write_entry s ctx w cp price) >>= store in
    let with_pair : CurrencyPair → Action s.Cache ExtendError (Dict ℕ Text) =
      λ cp. or_raise (parse_decimal decimal) bad_decimal >>= with_price cp in
    bind-Answers (map_error bad_pair (lift (from_string name))) with_pair
      (λ c e. elim (Result-cases (from_string name)) [
        | inl (cp, p) ↦ ground arith
        | inr (x, p) ↦ ground arith
      ])
      (λ cp.
        bind-Answers (or_raise (parse_decimal decimal) bad_decimal) (with_price cp)
          (λ c e. elim (Option-cases (parse_decimal decimal)) [
            | inl p ↦ ground arith
            | inr (x, p) ↦ ground arith
          ])
          (λ price.
            bind-Answers (attempt (write_entry s ctx w cp price)) store
              (attempt-Answers (write_entry s ctx w cp price))
              (λ entry. transform_prices-Answers s ctx w prices (add_entry s acc entry))))

module _ (c : PairStore) (h : VoteExtensionHandler c) where
  apply_error-answered : (e : ApplyError) → extend_error c h e ≢ nil_extend_request
  apply_error-answered (bad_votes e) p = ground arith
  apply_error-answered (panicked e) p = ground arith
  apply_error-answered (write_failed e) p = ground arith
  apply_error-answered out_of_range p = ground arith

  apply_votes-Answers : (ctx : Context) (txs : List Text) → Answers (apply_votes c h ctx txs)
  apply_votes-Answers ctx txs x e =
      elim (Result-cases
        (apply_prices_from_vote_extensions c h.price_applier ctx txs x.applied).0) [
          | inl (prices, p) ↦ ground arith
          | inr (y, p) ↦ apply_error-answered y (ground arith)
        ]

  ask_oracle-Answers : (client : ClientAnswer) → Answers (ask_oracle c h client)
  ask_oracle-Answers client_failed x e = ground arith
  ask_oracle-Answers nil_response x e = ground arith
  ask_oracle-Answers client_panicked x e = ground arith
  ask_oracle-Answers (prices_are prices) x e = ground arith

  transform-Answers :
      (ctx : Context) (prices : Dict Text Text)
      → Answers (transform_oracle_service_prices c h ctx prices)
  transform-Answers ctx prices x e =
      let s = h.own_strategy in
      elim (Result-cases (transform_prices s ctx x.applied.chain prices [] x.own_cache).0) [
        | inl (entries, p) ↦ ground arith
        | inr (y, p) ↦
            transform_prices-Answers s ctx x.applied.chain prices [] x.own_cache (ground arith)
      ]

  encode-Answers : (extension : OracleVoteExtension) → Answers (encode_extension c h extension)
  encode-Answers extension x e = elim (Result-cases (h.extension_codec.encode extension)) [
    | inl (bz, p) ↦ ground arith
    | inr (y, p) ↦ ground arith
  ]

  extend_vote_body-Answers :
      (ctx : Context) (client : ClientAnswer) (txs : List Text)
      → Answers (extend_vote_body c h ctx client (some txs))
  unfolding extend_vote_body
  extend_vote_body-Answers ctx client txs =
      let with_prices : Dict Text Text → Extending c h Text =
        λ prices. transform_oracle_service_prices c h ctx prices >>= encode_extension c h in
      let ask : Unit {0} → Extending c h Text = λ u. ask_oracle c h client >>= with_prices in
      bind-Answers (apply_votes c h ctx txs) ask (apply_votes-Answers ctx txs) (λ u.
        bind-Answers (ask_oracle c h client) with_prices (ask_oracle-Answers client) (λ prices.
          bind-Answers (transform_oracle_service_prices c h ctx prices) (encode_extension c h)
            (transform-Answers ctx prices) encode-Answers))

  -- A response with a vote extension; only a panic is an error, and then the vote extension is empty.
  abbrev pub IsResponse : Option Text × Option ExtendError → Type 0
  IsResponse answer =
      (bz : Text) × (answer.0 ≡ some bz)
      × ((answer.1 ≡ none) ⊎ (answer.1 ≡ some panic_error) × (bz ≡ []))

  respond-IsResponse :
      (r : Result ExtendError Text) → r ≢ err nil_extend_request → IsResponse (respond c h r)
  respond-IsResponse (ok bz) n = (bz, refl, inl refl)
  respond-IsResponse (err nil_extend_request) n = absurd (n refl)
  respond-IsResponse (err oracle_client_error) n = ([], refl, inl refl)
  respond-IsResponse (err extension_codec_error) n = ([], refl, inl refl)
  respond-IsResponse (err bad_decimal) n = ([], refl, inl refl)
  respond-IsResponse (err panic_error) n = ([], refl, inr (refl, refl))
  respond-IsResponse (err (pre_block_error e)) n = ([], refl, inl refl)
  respond-IsResponse (err (bad_pair e)) n = ([], refl, inl refl)

  -- A validator always answers a request to extend its vote, whatever its oracle service, the votes of the
  -- proposal, the codec or the state do: the handler returns a vote extension, and no error unless
  -- something panicked, in which case the vote extension is empty.
  pub extend_vote-IsResponse :
      (ctx : Context) (client : ClientAnswer) (txs : List Text) (x : Handling c h)
      → IsResponse (extend_vote c h ctx client (some txs) x).0
  unfolding extend_vote
  extend_vote-IsResponse ctx client txs x =
      respond-IsResponse (extend_vote_body c h ctx client (some txs) x).0
        (extend_vote_body-Answers ctx client txs x)
