-- ===== src/MarketMap/Keeper/MsgServer/Effects.antt =====
-- What the messages of x/marketmap/keeper/msg_server.go do to the state.
use orynx.Prelude.{
  ℕ, ◌≡◌, refl, ◌∙◌, Bool, true, false, List, [], ◌∷◌, Option, some, Text, Text-discrete, Result,
  ok, err, arith, ite, inl, inr, ◌⊎◌, All, Option-cases,
}
use orynx.Prelude.Action.{bind_ok, ◌>>◌}
use orynx.CurrencyPair.{CurrencyPair, to_string}
use orynx.MarketMap.{Market, ProviderConfig, is_member, ticker_string}
use orynx.MarketMap.Store.{MapStore}
use orynx.MarketMap.Keeper.{
  State, Params, KeeperError, Keeping, create_market, update_market, validate_state,
  is_market_valid, check_provider, check_providers, not_market_authority, set_last_updated,
}
use orynx.MarketMap.Keeper.MsgServer.{
  Hooks, upsert_markets, create_markets, update_markets, remove_markets, for_each, change_markets,
  create_with_hook, update_with_hook, upsert_market, verify_market_authorities, check_state,
}

module _ (c : MapStore Market) (W : Type 0) where
  -- Whoever is not a market authority changes nothing: the four messages on markets fail at once, with
  -- the state as it was.
  pub messages_unauthorized :
      (json_object : Text → Bool) (hooks : Hooks W)
      (delete_hooks : List (Market → Result KeeperError (Unit {0}))) (height : ℕ) (authority : Text)
      (markets : List Market) (tickers : List Text) (p : Params) (s : State c.Store W)
      → s.params ≡ some p
      → is_member authority p.market_authorities ≡ false
      → (upsert_markets c W hooks height authority markets s ≡ (err not_market_authority, s))
        × (create_markets c W hooks height authority markets s ≡ (err not_market_authority, s))
        × (update_markets c W hooks height authority markets s ≡ (err not_market_authority, s))
        × (remove_markets c W json_object hooks delete_hooks authority tickers s
            ≡ (err not_market_authority, s))
  unfolding upsert_markets create_markets update_markets remove_markets
  messages_unauthorized json_object hooks delete_hooks height authority markets tickers p s e n =
      ground arith

  -- The store after writing markets in order, as seen at one key.
  abbrev pub written : Text → List Market → Option Market → Option Market
  written key [] old = old
  written key (market ∷ markets) old =
      written key markets (ite (Text-discrete key (ticker_string market)) (some market) old)

  -- An operation that, if it succeeds, has written the market under its ticker and nothing else of this module.
  abbrev Writes : (Market → Keeping c W (Unit {0})) → Type 0
  Writes change =
      (market : Market) (s s' : State c.Store W)
      → change market s ≡ (ok tt, s')
      → (s'.markets ≡ c.set (ticker_string market) market s.markets) × (s'.params ≡ s.params)

  create-Writes : (hooks : Hooks W) → Writes (create_with_hook c W hooks)
  unfolding create_market
  create-Writes hooks market s s' e = ground arith

  update-Writes : (hooks : Hooks W) → Writes (update_with_hook c W hooks)
  unfolding update_market
  update-Writes hooks market s s' e = ground arith

  upsert-Writes : (hooks : Hooks W) → Writes (upsert_market c W hooks)
  upsert-Writes hooks market s s' e =
      ground (arith, create-Writes hooks market s s', update-Writes hooks market s s')

  for_each-written :
      (change : Market → Keeping c W (Unit {0}))
      → Writes change
      → (markets : List Market) (s s' : State c.Store W)
      → for_each c W change markets s ≡ (ok tt, s')
      → ((key : Text) → c.look key s'.markets ≡ written key markets (c.look key s.markets))
        × (s'.params ≡ s.params)
  for_each-written change w [] s s' e = ground arith
  for_each-written change w (market ∷ markets) s s' e =
      let (u, s1, p, q) = bind_ok (change market) (λ x. for_each c W change markets) s s' e in
      let (stored, kept) = w market s s1 p in
      let (rest, kept') = for_each-written change w markets s1 s' q in
      (
        λ key. rw (rest key, stored, c.look-set key (ticker_string market) market s.markets) refl,
        kept' ∙ kept,
      )

  -- The providers' normalization markets are in the store, and enabled if the market is.
  abbrev pub IsMarketNormalized : c.Store → Market → Type 0
  IsMarketNormalized store market =
      All
        (λ (pc : ProviderConfig).
          (cp : CurrencyPair)
          → pc.normalize_by_pair ≡ some cp
          → (norm : Market) × (c.look (to_string cp) store ≡ some norm)
            × (market.ticker.enabled ≡ true → norm.ticker.enabled ≡ true))
        market.provider_configs

  check_provider_sound :
      (store : c.Store) (market : Market) (pc : ProviderConfig) (cp : CurrencyPair)
      → check_provider c W store market pc ≡ ok tt
      → pc.normalize_by_pair ≡ some cp
      → (norm : Market) × (c.look (to_string cp) store ≡ some norm)
        × (market.ticker.enabled ≡ true → norm.ticker.enabled ≡ true)
  check_provider_sound store market pc cp h e = elim (Option-cases (c.look (to_string cp) store)) [
    | inl n ↦ absurd (ground arith)
    | inr (norm, q) ↦ (norm, q, λ t. ground arith)
  ]

  check_providers_sound :
      (store : c.Store) (market : Market) (pcs : List ProviderConfig)
      → check_providers c W store market pcs ≡ ok tt
      → All (λ (pc : ProviderConfig). check_provider c W store market pc ≡ ok tt) pcs
  check_providers_sound store market [] h = tt
  check_providers_sound store market (pc ∷ pcs) h =
      ground (arith, check_providers_sound store market pcs)

  All-map :
      {A : Type 0} {P Q : A → Type 0} (xs : List A) → ((x : A) → P x → Q x) → All P xs → All Q xs
  All-map [] f h = tt
  All-map (x ∷ xs) f h = (f x h.0, All-map xs f h.1)

  validate_state_sound :
      (store : c.Store) (markets : List Market)
      → validate_state c W store markets ≡ ok tt
      → All (IsMarketNormalized store) markets
  unfolding is_market_valid
  validate_state_sound store [] h = tt
  validate_state_sound store (market ∷ markets) h = (
    All-map market.provider_configs (λ pc q cp. check_provider_sound store market pc cp q)
        (check_providers_sound store market market.provider_configs (ground arith)),
    validate_state_sound store markets (ground arith),
  )

  -- What a message that changes markets leaves behind if it succeeds.
  abbrev pub IsChanged : ℕ → List Market → State c.Store W → State c.Store W → Type 0
  IsChanged height markets s s' =
      ((key : Text) → c.look key s'.markets ≡ written key markets (c.look key s.markets))
      × All (IsMarketNormalized s'.markets) markets
      × (s'.last_updated ≡ some height)
      × (s'.params ≡ s.params)

  change_markets-IsChanged :
      (change : Market → Keeping c W (Unit {0}))
      → Writes change
      → (height : ℕ) (authority : Text) (markets : List Market) (s s' : State c.Store W)
      → change_markets c W change height authority markets s ≡ (ok tt, s')
      → IsChanged height markets s s'
  change_markets-IsChanged change w height authority markets s s' e =
      let (u, s1, p, q) = bind_ok (verify_market_authorities c W authority) (λ _. changed) s s' e in
      let (u', s2, p', q') = bind_ok (for_each c W change markets) (λ _. finished) s1 s' q in
      let (looks, kept) = for_each-written change w markets s1 s2 p' in
      let same : s1 ≡ s = ground arith in
      let checked : validate_state c W s2.markets markets ≡ ok tt = ground arith in
      let valid = validate_state_sound s2.markets markets checked in
      let end : (s'.markets ≡ s2.markets)
          × (s'.last_updated ≡ some height)
          × (s'.params ≡ s2.params) =
        ground arith in
      (λ key. rw (end.0, looks key, same) refl, rw end.0 valid, end.1, rw (end.2, kept, same) refl)
    where
      finished : Keeping c W (Unit {0})
      finished = do check_state c W markets; set_last_updated c W height

      changed : Keeping c W (Unit {0})
      changed = do for_each c W change markets; finished

  -- If one of the messages that change markets succeeds, then at each key the store has the last market
  -- of the message with that ticker, or else what it had; the normalization markets of all these markets
  -- are in the store, and enabled where the market is; the height is recorded; the parameters are the same.
  pub upsert_markets-IsChanged :
      (hooks : Hooks W) (height : ℕ) (authority : Text) (markets : List Market)
      (s s' : State c.Store W)
      → (upsert_markets c W hooks height authority markets s ≡ (ok tt, s'))
        ⊎ ((create_markets c W hooks height authority markets s ≡ (ok tt, s'))
            ⊎ (update_markets c W hooks height authority markets s ≡ (ok tt, s')))
      → IsChanged height markets s s'
  unfolding upsert_markets create_markets update_markets
  upsert_markets-IsChanged hooks height authority markets s s' (inl e) =
      change_markets-IsChanged (upsert_market c W hooks) (upsert-Writes hooks) height authority
        markets s s' e
  upsert_markets-IsChanged hooks height authority markets s s' (inr (inl e)) =
      change_markets-IsChanged (create_with_hook c W hooks) (create-Writes hooks) height authority
        markets s s' e
  upsert_markets-IsChanged hooks height authority markets s s' (inr (inr e)) =
      change_markets-IsChanged (update_with_hook c W hooks) (update-Writes hooks) height authority
        markets s s' e
