-- ===== src/SideCar/Fetched.antt =====
-- What one round of `fetchAllPrices` (oracle/update.go) brings to the aggregator.
use orynx.Prelude.{
  ℕ, ◌≡◌, refl, sym, ap, ◌∙◌, inl, inr, [], ◌∷◌, Option, none, some, Text, Text-discrete, ite,
  if_pos, if_neg, arith, All, Option-cases, Result-cases, if◌then◌else◌,
}
use orynx.Prelude.Dict.{Dict, get, IsMap}
use orynx.Provider.{is_running}
use orynx.SideCar.{
  PriceAggregator, PriceProvider, OracleImpl, Clock, filter_prices, fetch_prices, fetch_each,
  fetch_all_prices,
}
use orynx.SideCar.Laws.{AggregatorLaws}

module _ {Float : Type 0} (a : PriceAggregator Float) (l : AggregatorLaws a) where
  -- What a provider contributes: nothing unless it runs and no fresh price is nil, and then its fresh prices.
  abbrev pub contribution :
      Clock a → ℕ → Option (PriceProvider a) → Option (Dict Text (Option Float))
  contribution clock max_age none = none
  contribution clock max_age (some p) =
      if is_running p
      then filter_prices a (clock.at_price p.name) max_age p.provider_data []
      else none

  -- Every provider stands under its name.
  abbrev pub AreNamed : Dict Text (PriceProvider a) → Type 0
  AreNamed ps = All (λ (e : Text × PriceProvider a). e.1.name ≡ e.0) ps

  abbrev or_old : {A : Type 0} → Option A → Option A → Option A
  or_old none old = old
  or_old (some x) old = some x

  or_none : {A : Type 0} (o : Option A) → or_old o none ≡ o
  or_none none = refl
  or_none (some x) = refl

  fetch_prices-reported :
      (clock : Clock a) (max_age : ℕ) (p : PriceProvider a) (s : a.State) (key : Text)
      → get Text-discrete key (l.reported (fetch_prices a clock max_age p s))
        ≡ ite
            (Text-discrete key p.name)
            (or_old (contribution clock max_age (some p)) (get Text-discrete key (l.reported s)))
            (get Text-discrete key (l.reported s))
  unfolding fetch_prices
  fetch_prices-reported clock max_age p s key =
      elim (Option-cases (filter_prices a (clock.at_price p.name) max_age p.provider_data [])) [
        | inl n ↦ ground arith
        | inr (prices, e) ↦ ground (arith, l.reported-set key p.name prices s)
      ]

  fetched_same :
      (clock : Clock a) (max_age : ℕ) (p : PriceProvider a) (s : a.State) (key : Text)
      → key ≡ p.name
      → get Text-discrete key (l.reported (fetch_prices a clock max_age p s))
        ≡ or_old (contribution clock max_age (some p)) (get Text-discrete key (l.reported s))
  fetched_same clock max_age p s key h =
      fetch_prices-reported clock max_age p s key ∙ if_pos (Text-discrete key p.name) h _ _

  fetched_other :
      (clock : Clock a) (max_age : ℕ) (p : PriceProvider a) (s : a.State) (key : Text)
      → ¬ (key ≡ p.name)
      → get Text-discrete key (l.reported (fetch_prices a clock max_age p s))
        ≡ get Text-discrete key (l.reported s)
  fetched_other clock max_age p s key h =
      fetch_prices-reported clock max_age p s key
      ∙ if_neg (Text-discrete key p.name) h
          (or_old (contribution clock max_age (some p)) (get Text-discrete key (l.reported s))) _

  fetch_each-reported :
      (clock : Clock a) (max_age : ℕ) (ps : Dict Text (PriceProvider a)) (s : a.State) (key : Text)
      → IsMap Text-discrete ps
      → AreNamed ps
      → get Text-discrete key (l.reported (fetch_each a clock max_age ps s))
        ≡ or_old
            (contribution clock max_age (get Text-discrete key ps))
            (get Text-discrete key (l.reported s))
  unfolding fetch_each get
  fetch_each-reported clock max_age [] s key i n = refl
  fetch_each-reported clock max_age ((name, p) ∷ ps) s key i n =
      let rest =
        fetch_each-reported clock max_age ps (fetch_prices a clock max_age p s) key i.1 n.1 in
      elim (Text-discrete key name) [
        | yes y ↦
            let gone : get Text-discrete key ps ≡ none = rw y i.0 in
            let first = fetched_same clock max_age p s key (y ∙ sym n.0) in
            let after = rw gone at rest in rw (if_pos (Text-discrete key name) y) (after ∙ first)
        | no y ↦
            let same = fetched_other clock max_age p s key (λ z. y (z ∙ n.0)) in
            rw (if_neg (Text-discrete key name) y)
              (rest ∙ ap (or_old (contribution clock max_age (get Text-discrete key ps))) same)
      ]

  pub fetch_all_prices_fields :
      (clock : Clock a) (o : OracleImpl a)
      → let o' = fetch_all_prices a clock o in
        (o'.aggregator
          ≡ (a.aggregate_prices
              (fetch_each a clock o.max_price_age o.price_providers (a.reset o.aggregator))).1)
        × (o'.market_map ≡ o.market_map)
        × (o'.price_providers ≡ o.price_providers)
  unfolding fetch_all_prices
  fetch_all_prices_fields clock o =
      let fetched = fetch_each a clock o.max_price_age o.price_providers (a.reset o.aggregator) in
      elim (Result-cases (a.aggregate_prices fetched).0) [
        | inl (u, p) ↦ ground arith
        | inr (x, p) ↦ ground arith
      ]

  fetch_prices-config :
      (clock : Clock a) (max_age : ℕ) (p : PriceProvider a) (s : a.State)
      → l.config (fetch_prices a clock max_age p s) ≡ l.config s
  unfolding fetch_prices
  fetch_prices-config clock max_age p s =
      elim (Option-cases (filter_prices a (clock.at_price p.name) max_age p.provider_data [])) [
        | inl n ↦ ground arith
        | inr (prices, e) ↦ ground (arith, l.config-set p.name (some prices) s)
      ]

  fetch_each-config :
      (clock : Clock a) (max_age : ℕ) (ps : Dict Text (PriceProvider a)) (s : a.State)
      → l.config (fetch_each a clock max_age ps s) ≡ l.config s
  unfolding fetch_each
  fetch_each-config clock max_age [] s = refl
  fetch_each-config clock max_age ((name, p) ∷ ps) s =
      fetch_each-config clock max_age ps (fetch_prices a clock max_age p s)
      ∙ fetch_prices-config clock max_age p s

  pub fetch_all_prices-config :
      (clock : Clock a) (o : OracleImpl a)
      → let o' = fetch_all_prices a clock o in
        (l.config o'.aggregator ≡ l.config o.aggregator)
        × (o'.market_map ≡ o.market_map)
        × (o'.price_providers ≡ o.price_providers)
  fetch_all_prices-config clock o =
      let (new, mm, ps) = fetch_all_prices_fields clock o in
      let fetched = fetch_each a clock o.max_price_age o.price_providers (a.reset o.aggregator) in
      (
        ap l.config new
            ∙ l.config-aggregate fetched
            ∙ fetch_each-config clock o.max_price_age o.price_providers (a.reset o.aggregator)
            ∙ l.config-reset o.aggregator,
        mm,
        ps,
      )

  -- After a round, the aggregator holds of every provider what the provider contributes to this round,
  -- and nothing of an earlier round, also if the aggregation panics; it still goes by the same market map,
  -- and the providers are as they were.
  pub fetch_all_prices-reported :
      (clock : Clock a) (o : OracleImpl a)
      → IsMap Text-discrete o.price_providers
      → AreNamed o.price_providers
      → let o' = fetch_all_prices a clock o in
        ((key : Text)
          → get Text-discrete key (l.reported o'.aggregator)
            ≡ contribution clock o.max_price_age (get Text-discrete key o.price_providers))
        × (l.config o'.aggregator ≡ l.config o.aggregator)
        × (o'.market_map ≡ o.market_map)
        × (o'.price_providers ≡ o.price_providers)
  unfolding get
  fetch_all_prices-reported clock o i n =
      let (new, _, _) = fetch_all_prices_fields clock o in
      let (config, mm, ps) = fetch_all_prices-config clock o in
      let fetched = fetch_each a clock o.max_price_age o.price_providers (a.reset o.aggregator) in
      let held = ap l.reported new ∙ l.reported-aggregate fetched in
      let none_yet = λ (key : Text). ap (get Text-discrete key) (l.reported-reset o.aggregator) in
      (
        λ key.
            ap (get Text-discrete key) held
            ∙ fetch_each-reported clock o.max_price_age o.price_providers (a.reset o.aggregator) key
                i n
            ∙ ap
                (or_old
                  (contribution clock o.max_price_age (get Text-discrete key o.price_providers)))
                (none_yet key)
            ∙ or_none
                (contribution clock o.max_price_age (get Text-discrete key o.price_providers)),
        config,
        mm,
        ps,
      )
