-- ===== src/SideCar/Lifecycle/Stopped.antt =====
-- The loop of `Start` and `Stop` (oracle/lifecycle.go).
use orynx.Prelude.{◌≡◌, ◌↔◌, Bool, true, false, List, [], ◌∷◌, Text, All}
use orynx.Prelude.Dict.{Dict}
use orynx.Provider.{is_running}
use orynx.MarketMap.{is_member}
use orynx.SideCar.{PriceAggregator, PriceProvider, OracleImpl, Clock, fetch_all_prices, get_prices}
use orynx.SideCar.Lifecycle.{Oracle, Routine, remove_routine, Event, tick, done, exits, wait}

module _ {Float : Type 0} (a : PriceAggregator Float) (json_object : Text → Bool) where
  -- The context is done at some point.
  abbrev pub has_done : List (Event a json_object) → Bool
  has_done [] = false
  has_done (done ∷ events) = true
  has_done (tick clock ∷ events) = has_done events
  has_done (exits x ∷ events) = has_done events

  -- The clocks of the ticks before that, and the rounds at these.
  abbrev pub clocks_before_done : List (Event a json_object) → List (Clock a)
  clocks_before_done [] = []
  clocks_before_done (done ∷ events) = []
  clocks_before_done (tick clock ∷ events) = clock ∷ clocks_before_done events
  clocks_before_done (exits x ∷ events) = clocks_before_done events

  abbrev pub rounds : List (Clock a) → OracleImpl a → OracleImpl a
  rounds [] impl = impl
  rounds (clock ∷ clocks) impl = rounds clocks (fetch_all_prices a clock impl)

  -- The goroutines that have not ended after the events, before or after the context is done.
  abbrev pub left_after : List (Event a json_object) → List Routine → List Routine
  left_after [] left = left
  left_after (done ∷ events) left = left_after events left
  left_after (tick clock ∷ events) left = left_after events left
  left_after (exits x ∷ events) left = left_after events (remove_routine x left)

  -- The context of the side-car and those of all providers that it has started are cancelled, what it
  -- serves is what it served before, and `Start` has returned if and only if no goroutine is left.
  pub record IsStopped (o : Oracle a json_object) (before : OracleImpl a) (left : List Routine)
      : Type 0 where
    pub live : o.live ≡ false
    pub providers :
        All
          (λ (e : Text × PriceProvider a).
            is_member e.0 o.impl.spawned ≡ true → is_running e.1 ≡ false)
          o.impl.price_providers
    pub prices : get_prices a o.impl ≡ get_prices a before
    pub last_sync : o.impl.last_price_sync ≡ before.last_price_sync
    pub returns : (o.running ≡ false) ↔ (left ≡ [])

  -- The wait changes only whether the side-car runs.
  abbrev Waited : List (Event a json_object) → List Routine → Oracle a json_object → Type 0
  Waited events left o =
      let n = wait a json_object events left o in
      (n.impl ≡ o.impl) × (n.live ≡ o.live) × ((n.running ≡ false) ↔ (left_after events left ≡ []))
