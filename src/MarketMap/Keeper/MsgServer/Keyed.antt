-- ===== src/MarketMap/Keeper/MsgServer/Keyed.antt =====
-- Each market of x/marketmap stands under the string of its own ticker: an invariant of the keeper and of
-- its messages (x/marketmap/keeper/keeper.go and msg_server.go).
use orynx.Prelude.{
  ℕ, ◌≡◌, ◌⊎◌, inl, inr, sym, Bool, true, false, List, [], ◌∷◌, Option, some, Text, ok, arith,
  Option-cases, if◌then◌else◌,
}
use orynx.MarketMap.{Market, ticker_string}
use orynx.MarketMap.Store.{MapStore}
use orynx.MarketMap.Keeper.{State, default_delete_hook, enable_market, disable_market, with_enabled}
use orynx.MarketMap.Keeper.MsgServer.{
  Hooks, upsert_markets, create_markets, update_markets, remove_markets,
}
use orynx.MarketMap.Keeper.MsgServer.Effects.{written, upsert_markets-IsChanged}
use orynx.MarketMap.Keeper.MsgServer.Removal.{IsKeyed, IsRemoval-IsKeyed, remove_markets-IsRemoval}

module _ (c : MapStore Market) (W : Type 0) where
  written-keyed :
      (key : Text) (markets : List Market) (old : Option Market) (market : Market)
      → (old ≡ some market → key ≡ ticker_string market)
      → written c W key markets old ≡ some market
      → key ≡ ticker_string market
  written-keyed key [] old market h e = h e
  written-keyed key (m ∷ markets) old market h e =
      written-keyed key markets _ market (λ q. ground (arith, h)) e

  set-IsKeyed :
      (market : Market) (store : c.Store)
      → IsKeyed c W store
      → IsKeyed c W (c.set (ticker_string market) market store)
  set-IsKeyed market store k key m e =
      ground (arith, k key m, c.look-set key (ticker_string market) market store)

  -- Setting the flag of a market is a write of the changed market under its ticker.
  flag-IsKeyed :
      (b : Bool) (ticker : Text) (s s' : State c.Store W)
      → IsKeyed c W s.markets
      → (if b then enable_market c W ticker s else disable_market c W ticker s) ≡ (ok tt, s')
      → IsKeyed c W s'.markets
  unfolding enable_market disable_market
  flag-IsKeyed b ticker s s' k e = elim (Option-cases (c.look ticker s.markets)) [
    | inl n ↦ absurd (ground arith)
    | inr (market, q) ↦
        let new = with_enabled c W b market in
        let same : c.set (ticker_string new) new s.markets ≡ s'.markets = ground arith in
        rw (sym same) (set-IsKeyed new s.markets k)
  ]

  -- Whatever message or keeper call changes the markets and succeeds keeps each market under its ticker.
  pub market_changes-IsKeyed :
      (json_object : Text → Bool) (hooks : Hooks W) (height : ℕ) (authority : Text)
      (markets : List Market) (ticker : Text) (tickers deleted : List Text) (s s' : State c.Store W)
      → IsKeyed c W s.markets
      → ((upsert_markets c W hooks height authority markets s ≡ (ok tt, s'))
          ⊎ ((create_markets c W hooks height authority markets s ≡ (ok tt, s'))
              ⊎ (update_markets c W hooks height authority markets s ≡ (ok tt, s'))))
        ⊎ ((enable_market c W ticker s ≡ (ok tt, s'))
            ⊎ ((disable_market c W ticker s ≡ (ok tt, s'))
                ⊎ (remove_markets c W json_object hooks
                      (default_delete_hook ∷ [])
                      authority
                      tickers
                      s
                    ≡ (ok deleted, s'))))
      → IsKeyed c W s'.markets
  market_changes-IsKeyed json_object hooks height authority markets ticker tickers deleted s s' k
        (inl e) =
      let changed = upsert_markets-IsChanged c W hooks height authority markets s s' e in
      λ key market q.
        written-keyed key markets (c.look key s.markets) market (k key market)
          (rw (sym (changed.0 key)) q)
  market_changes-IsKeyed json_object hooks height authority markets ticker tickers deleted s s' k
        (inr (inl e)) =
      flag-IsKeyed true ticker s s' k e
  market_changes-IsKeyed json_object hooks height authority markets ticker tickers deleted s s' k
        (inr (inr (inl e))) =
      flag-IsKeyed false ticker s s' k e
  market_changes-IsKeyed json_object hooks height authority markets ticker tickers deleted s s' k
        (inr (inr (inr e))) =
      IsRemoval-IsKeyed c W tickers s.markets s'.markets k
        (remove_markets-IsRemoval c W json_object hooks authority tickers deleted s s' k e).0
