-- ===== src/MarketMap/Keeper/MsgServer/Removal.antt =====
-- `RemoveMarkets` (x/marketmap/keeper/msg_server.go) with the default deletion hook.
use orynx.Prelude.{
  ◌≡◌, refl, sym, Bool, true, false, ◌&&◌, List, [], ◌∷◌, none, some, Text, ok, arith,
  if◌then◌else◌, inl, inr, Option-cases, wrap_err,
}
use orynx.Prelude.Action.{bind_ok, ◌>>=◌, ◌>>◌, gets, lift, pure}
use orynx.MarketMap.{Market, is_member, ticker_string, validate_market_map}
use orynx.MarketMap.Store.{MapStore}
use orynx.MarketMap.Keeper.{
  State, Keeping, invalid_map, delete_market, default_delete_hook, has_market, get_all_markets,
}
use orynx.MarketMap.Keeper.MsgServer.{
  Hooks, remove_markets, remove_each, verify_market_authorities, run_hook,
}

module _ (c : MapStore Market) (W : Type 0) where
  -- Each market stands under the string of its ticker, as `setMarket` writes it.
  abbrev pub IsKeyed : c.Store → Type 0
  IsKeyed store =
      (key : Text) (market : Market) → c.look key store ≡ some market → key ≡ ticker_string market

  -- What a deletion of some keys leaves: those keys free, all others as they were; what went was disabled.
  abbrev pub IsRemoval : List Text → c.Store → c.Store → Type 0
  IsRemoval tickers store store' =
      ((key : Text)
        → c.look key store' ≡ (if is_member key tickers then none else c.look key store))
      × ((key : Text) (market : Market)
          → is_member key tickers ≡ true
          → c.look key store ≡ some market
          → market.ticker.enabled ≡ false)

  delete_market-IsRemoval :
      (ticker : Text) (b : Bool) (s s' : State c.Store W)
      → IsKeyed s.markets
      → delete_market c W (default_delete_hook ∷ []) ticker s ≡ (ok b, s')
      → IsRemoval (ticker ∷ []) s.markets s'.markets × (b ≡ has_market c W ticker s)
  unfolding delete_market is_member
  delete_market-IsRemoval ticker b s s' k e = elim (Option-cases (c.look ticker s.markets)) [
    | inl n ↦
        let same : s ≡ s' = ground arith in
        (
          (λ key. rw (sym same) (ground arith), λ key market i l. absurd (ground arith)),
          ground arith,
        )
    | inr (market, q) ↦
        let off : market.ticker.enabled ≡ false = ground arith in
        let gone : c.remove (ticker_string market) s.markets ≡ s'.markets = ground arith in
        let at : ticker ≡ ticker_string market = k ticker market q in
        (
          (
            λ key. rw (sym gone, c.look-remove key (ticker_string market) s.markets) (ground arith),
            λ key m i l. ground arith,
          ),
          ground arith,
        )
  ]

  pub IsRemoval-IsKeyed :
      (tickers : List Text) (store store' : c.Store)
      → IsKeyed store
      → IsRemoval tickers store store'
      → IsKeyed store'
  IsRemoval-IsKeyed tickers store store' k r key market l = ground (arith, k key market, r.0 key, l)

  IsRemoval-trans :
      (ticker : Text) (tickers : List Text) (a b d : c.Store)
      → IsRemoval (ticker ∷ []) a b
      → IsRemoval tickers b d
      → IsRemoval (ticker ∷ tickers) a d
  unfolding is_member
  IsRemoval-trans ticker tickers a b d r t = (
    λ key. ground (arith, r.0 key, t.0 key),
    λ key market i l. ground (arith, r.0 key, r.1 key market, t.1 key market, l),
  )

  -- The deleted markets are reported: the given keys that had a market.
  abbrev pub IsReport : List Text → List Text → State c.Store W → Type 0
  IsReport deleted tickers s =
      (key : Text) → is_member key deleted ≡ (is_member key tickers && has_market c W key s)

  remove_each-IsRemoval :
      (hooks : Hooks W) (tickers deleted : List Text) (s s' : State c.Store W)
      → IsKeyed s.markets
      → remove_each c W hooks (default_delete_hook ∷ []) tickers s ≡ (ok deleted, s')
      → IsRemoval tickers s.markets s'.markets × IsReport deleted tickers s
  unfolding is_member
  remove_each-IsRemoval hooks [] deleted s s' k e =
      let same : s ≡ s' = ground arith in
      let none_deleted : [] ≡ deleted = ground arith in
      (
        (λ key. rw (sym same) refl, λ key market i l. absurd (ground arith)),
        λ key. rw (sym none_deleted) refl,
      )
  remove_each-IsRemoval hooks (ticker ∷ tickers) deleted s s' k e =
      let (b, s1, p, q) =
        bind_ok (delete_market c W (default_delete_hook ∷ []) ticker) after_deletion s s' e in
      let (u, s2, p', q') =
        bind_ok (run_hook c W (hooks.after_market_removed ticker)) (λ _. finish b) s1 s' q in
      let (rest, s3, p'', q'') =
        bind_ok (remove_each c W hooks (default_delete_hook ∷ []) tickers) (reported b) s2 s' q' in
      let (first, found) = delete_market-IsRemoval ticker b s s1 k p in
      let same : s2.markets ≡ s1.markets = ground arith in
      let first' : IsRemoval (ticker ∷ []) s.markets s2.markets = rw same first in
      let keyed = IsRemoval-IsKeyed (ticker ∷ []) s.markets s2.markets k first' in
      let (others, report) = remove_each-IsRemoval hooks tickers rest s2 s3 keyed p'' in
      let last : s3 ≡ s' = ground arith in
      let answer : (if b then ticker ∷ rest else rest) ≡ deleted = ground arith in
      (
        rw (sym last)
            (IsRemoval-trans ticker tickers s.markets s2.markets s3.markets first' others),
        λ key. rw (sym answer) (ground (arith, report key, first'.0 key, found)),
      )
    where
      reported : Bool → List Text → Keeping c W (List Text)
      reported b rest = pure (if b then ticker ∷ rest else rest)

      finish : Bool → Keeping c W (List Text)
      finish b = do rest ← remove_each c W hooks (default_delete_hook ∷ []) tickers; reported b rest

      after_deletion : Bool → Keeping c W (List Text)
      after_deletion b = do run_hook c W (hooks.after_market_removed ticker); finish b

  -- If `RemoveMarkets` with the default hook succeeds on a store where each market stands under its
  -- ticker, then the named keys are free, all others are as they were, no enabled market was removed, the
  -- response names exactly the keys that had a market, and the map that is left passes `ValidateBasic`.
  pub remove_markets-IsRemoval :
      (json_object : Text → Bool) (hooks : Hooks W) (authority : Text) (tickers deleted : List Text)
      (s s' : State c.Store W)
      → IsKeyed s.markets
      → remove_markets c W json_object hooks (default_delete_hook ∷ []) authority tickers s
        ≡ (ok deleted, s')
      → IsRemoval tickers s.markets s'.markets
        × IsReport deleted tickers s
        × (validate_market_map json_object (c.entries s'.markets) ≡ ok tt)
  unfolding remove_markets
  remove_markets-IsRemoval json_object hooks authority tickers deleted s s' k e =
      let (u, s1, p, q) = bind_ok (verify_market_authorities c W authority) (λ _. removal) s s' e in
      let (found, s2, p', q') =
        bind_ok (remove_each c W hooks (default_delete_hook ∷ []) tickers) checked s1 s' q in
      let same : s1 ≡ s = ground arith in
      let (removed, report) = remove_each-IsRemoval hooks tickers found s s2 k (rw (sym same) p') in
      let valid : validate_market_map json_object (c.entries s2.markets) ≡ ok tt = ground arith in
      let last : s2 ≡ s' = ground arith in
      let answer : found ≡ deleted = ground arith in
      (rw (sym last) removed, rw (sym answer) report, rw (sym last) valid)
    where
      checked : List Text → Keeping c W (List Text)
      checked found = do
        all ← gets (get_all_markets c W)
        lift (wrap_err invalid_map (validate_market_map json_object all))
        pure found

      removal : Keeping c W (List Text)
      removal = do found ← remove_each c W hooks (default_delete_hook ∷ []) tickers; checked found
