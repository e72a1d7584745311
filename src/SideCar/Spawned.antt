-- ===== src/SideCar/Spawned.antt =====
-- What an update of the providers (oracle/update.go) leaves of their keys and names, and which ones it starts.
use orynx.Prelude.{
  ◌≡◌, ◌≢◌, ◌⊎◌, inl, inr, Bool, true, false, List, [], ◌∷◌, none, Text, Text-discrete, arith, All,
}
use orynx.Prelude.Dict.{Dict, get, IsMap}
use orynx.Provider.{is_running, stop, update_ids}
use orynx.MarketMap.{MarketMap, is_member}
use orynx.SideCar.{
  ProviderTicker, PriceAggregator, PriceProvider, provider_tickers_from_market_map,
  update_provider_state, update_providers, add_spawned,
}
use orynx.SideCar.Laws.{AggregatorLaws}
use orynx.SideCar.Fetched.{AreNamed}

module _ {Float : Type 0} (a : PriceAggregator Float) (l : AggregatorLaws a) where
  update_provider_state-name :
      (tickers : List ProviderTicker) (p : PriceProvider a)
      → (update_provider_state a tickers p).0.name ≡ p.name
  unfolding update_provider_state stop update_ids
  update_provider_state-name tickers p = ground arith

  -- The list of started providers after one provider is updated.
  abbrev next_spawned : MarketMap → Text → PriceProvider a → List Text → List Text
  next_spawned mm name p spawned =
      add_spawned a name (update_provider_state a (provider_tickers_from_market_map name mm) p).1
        spawned

  pub update_providers-get :
      (key : Text) (mm : MarketMap) (ps : Dict Text (PriceProvider a)) (spawned : List Text)
      → (get Text-discrete key ps ≡ none
          → get Text-discrete key (update_providers a mm ps spawned).0 ≡ none)
        × (get Text-discrete key ps ≢ none
            → get Text-discrete key (update_providers a mm ps spawned).0 ≢ none)
  unfolding update_providers get
  update_providers-get key mm [] spawned = (λ h. h, λ h. h)
  update_providers-get key mm ((name, p) ∷ ps) spawned =
      let rest = update_providers-get key mm ps (next_spawned mm name p spawned) in
      ground (arith, rest.0, rest.1)

  pub update_providers-IsMap :
      (mm : MarketMap) (ps : Dict Text (PriceProvider a)) (spawned : List Text)
      → IsMap Text-discrete ps
      → IsMap Text-discrete (update_providers a mm ps spawned).0
  unfolding update_providers
  update_providers-IsMap mm [] spawned i = tt
  update_providers-IsMap mm ((name, p) ∷ ps) spawned i =
      ((update_providers-get name mm ps _).0 i.0, update_providers-IsMap mm ps _ i.1)

  pub update_providers-AreNamed :
      (mm : MarketMap) (ps : Dict Text (PriceProvider a)) (spawned : List Text)
      → AreNamed a l ps
      → AreNamed a l (update_providers a mm ps spawned).0
  unfolding update_providers
  update_providers-AreNamed mm [] spawned n = tt
  update_providers-AreNamed mm ((name, p) ∷ ps) spawned n = (
    rw (update_provider_state-name (provider_tickers_from_market_map name mm) p) n.0,
    update_providers-AreNamed mm ps _ n.1,
  )

  add_spawned-keeps :
      (name key : Text) (starts : Bool) (spawned : List Text)
      → is_member name spawned ≡ true
      → is_member name (add_spawned a key starts spawned) ≡ true
  unfolding is_member
  add_spawned-keeps name key true spawned h = ground arith
  add_spawned-keeps name key false spawned h = h

  update_providers-spawned :
      (name : Text) (mm : MarketMap) (ps : Dict Text (PriceProvider a)) (spawned : List Text)
      → is_member name spawned ≡ true
      → is_member name (update_providers a mm ps spawned).1 ≡ true
  unfolding update_providers
  update_providers-spawned name mm [] spawned h = h
  update_providers-spawned name mm ((key, p) ∷ ps) spawned h =
      update_providers-spawned name mm ps (next_spawned mm key p spawned)
        (add_spawned-keeps name key _ spawned h)

  -- A provider that has not been started is started by an update, or gets no tickers.
  update_provider_state-IsStarted :
      (tickers : List ProviderTicker) (p : PriceProvider a)
      → p.main_ctx ≡ none
      → let (p', starts) = update_provider_state a tickers p in (p'.ids ≡ []) ⊎ (starts ≡ true)
  unfolding update_provider_state update_ids is_running stop
  update_provider_state-IsStarted [] p idle = inl (ground arith)
  update_provider_state-IsStarted (t ∷ tickers) p idle = inr (ground arith)

  member_of_started :
      (name : Text) (starts : Bool) (spawned : List Text)
      → starts ≡ true
      → is_member name (add_spawned a name starts spawned) ≡ true
  unfolding is_member
  member_of_started name true spawned h = ground arith
  member_of_started name false spawned h = cc

  -- The provider has no tickers, or has been started.
  abbrev pub IsStarted : List Text → Text × PriceProvider a → Type 0
  IsStarted spawned e = (e.1.ids ≡ []) ⊎ (is_member e.0 spawned ≡ true)

  -- Of providers that have not been started, an update starts all that get tickers.
  pub update_providers-IsStarted :
      (mm : MarketMap) (ps : Dict Text (PriceProvider a)) (spawned : List Text)
      → All (λ (e : Text × PriceProvider a). e.1.main_ctx ≡ none) ps
      → let (ps', spawned') = update_providers a mm ps spawned in All (IsStarted spawned') ps'
  unfolding update_providers
  update_providers-IsStarted mm [] spawned idle = tt
  update_providers-IsStarted mm ((name, p) ∷ ps) spawned idle = (
    elim (update_provider_state-IsStarted (provider_tickers_from_market_map name mm) p idle.0) [
      | inl e ↦ inl e
      | inr s ↦ inr (
          update_providers-spawned name mm ps (next_spawned mm name p spawned)
            (member_of_started name _ spawned s))
    ],
    update_providers-IsStarted mm ps (next_spawned mm name p spawned) idle.1,
  )
