-- ===== src/Median/Quorum.antt =====
-- `Median` (pkg/math/voteweighted/voteweighted.go): which pairs get a price, and that the result does
-- not depend on the order in which Go walks its maps.
use mathlib.Core.List.{Perm}
use mathlib.Core.List.Perm
use orynx.Prelude.{
  ℕ, ◌≡◌, ◌≢◌, refl, List, [], ◌∷◌, Option, none, some, Text, arith, Option-cases, inl, inr, ap,
  ◌∙◌, sym, Bool, true, false,
}
use orynx.Prelude.Dict.{Dict, get, IsMap}
use orynx.Prelude.Int.{ℤ}
use orynx.Prelude.Sorting.{StableSort}
use orynx.Prelude.Sums.{sum_by, sum_by-perm}
use orynx.CurrencyPair.{CurrencyPair, CurrencyPair-discrete}
use orynx.Median.{
  PricePerValidator, PriceInfo, Prices, MedianEnv, compute_median, meets_threshold, select_prices,
  median, collect_prices,
}
use orynx.Median.Weights.{weight_of}
use orynx.Median.Correct.{compute_median-perm}
use orynx.Median.Collect.{
  Report, reports, for_pair, summary, collect_prices-summary, collect_prices-IsMap,
}

-- The entry of the result for a pair with these collected reports.
abbrev pub quorum_price : MedianEnv → ℕ → Option PriceInfo → Option (Option ℤ)
quorum_price env total none = none
quorum_price env total (some info) = elim (meets_threshold env info.total_weight total) [
  | none ↦ none
  | some b ↦ elim b [ true ↦ some (compute_median env.sorter info) | false ↦ none ]
]

-- The quotient by the total does not panic.
abbrev pub NoPanic : MedianEnv → ℕ → Type 0
NoPanic env total = (weight : ℕ) → meets_threshold env weight total ≢ none

select_prices-get :
    (env : MedianEnv) (total : ℕ) (infos : Dict CurrencyPair PriceInfo)
    → NoPanic env total
    → IsMap CurrencyPair-discrete infos
    → (prices : Prices) × (select_prices env total infos ≡ some prices)
      × ((cp : CurrencyPair)
          → get CurrencyPair-discrete cp prices
            ≡ quorum_price env total (get CurrencyPair-discrete cp infos))
unfolding select_prices get
select_prices-get env total [] np h = ([], refl, λ cp. refl)
select_prices-get env total ((k, info) ∷ infos) np h =
    let (prices, e, p) = select_prices-get env total infos np h.1 in
    elim (Option-cases (meets_threshold env info.total_weight total)) [
      | inl q ↦ absurd (np info.total_weight q)
      | inr (b, q) ↦ decided b q prices e p
    ]
  where
    decided :
        (b : Bool)
        → meets_threshold env info.total_weight total ≡ some b
        → (prices : Prices) → select_prices env total infos ≡ some prices
        → ((cp : CurrencyPair)
            → get CurrencyPair-discrete cp prices
              ≡ quorum_price env total (get CurrencyPair-discrete cp infos))
        → (prices' : Prices) × (select_prices env total ((k, info) ∷ infos) ≡ some prices')
          × ((cp : CurrencyPair)
              → get CurrencyPair-discrete cp prices'
                ≡ quorum_price env total (get CurrencyPair-discrete cp ((k, info) ∷ infos)))
    decided true q prices e p =
        ((k, compute_median env.sorter info) ∷ prices, ground arith, λ cp. ground (arith, p cp))
    decided false q prices e p = (prices, ground arith, λ cp. ground (arith, p cp, p k, h.0))

-- When the total of the bonded tokens is known and the quotient by it does not panic, `median` returns
-- prices, and its entry for each pair is the weighted median of exactly the reports that were collected
-- for that pair, present if and only if there are reports and their weight meets the threshold.
pub median-quorum_price :
    (env : MedianEnv) (providers : Dict Text Prices) {total : ℕ}
    → env.total_bonded_tokens ≡ some total
    → NoPanic env total
    → (prices : Prices) × (median env providers ≡ some prices)
      × ((cp : CurrencyPair)
          → get CurrencyPair-discrete cp prices
            ≡ quorum_price env total (summary (for_pair cp (reports env.validator providers))))
unfolding median
median-quorum_price env providers {total} t np =
    let infos = collect_prices env.validator providers [] in
    let (prices, e, p) =
      select_prices-get env total infos np (collect_prices-IsMap env.validator providers [] tt) in
    (
      prices,
      rw (t, median) e,
      λ cp. p cp ∙ ap (quorum_price env total) (collect_prices-summary cp env.validator providers),
    )

for_pair-perm :
    (cp : CurrencyPair) {xs ys : List Report} → Perm xs ys → Perm (for_pair cp xs) (for_pair cp ys)
for_pair-perm cp p = Perm.map _ (Perm.filter _ p)

-- The same environment with another stable sort.
abbrev pub with_sorter : MedianEnv → StableSort PricePerValidator → MedianEnv
with_sorter env s = record env { sorter = s }

same_decision :
    (env : MedianEnv) (s : StableSort PricePerValidator) (total weight : ℕ)
    → meets_threshold (with_sorter env s) weight total ≡ meets_threshold env weight total
unfolding meets_threshold
same_decision env s total weight = refl

quorum_price-perm :
    (env : MedianEnv) (s : StableSort PricePerValidator) (total : ℕ)
    (rs rs' : List PricePerValidator)
    → Perm rs rs'
    → quorum_price env total (summary rs) ≡ quorum_price (with_sorter env s) total (summary rs')
quorum_price-perm env s total [] rs' p = rw (← Perm.nil-eq p)
quorum_price-perm env s total (r ∷ rs) [] p = absurd (cons_not_nil (Perm.eq-nil p))
  where
    cons_not_nil : r ∷ rs ≢ []
    cons_not_nil e = cc
quorum_price-perm env s total (r ∷ rs) (r' ∷ rs') p = ground (
  arith,
  sum_by-perm weight_of p,
  same_decision env s total (sum_by weight_of (r ∷ rs)),
  compute_median-perm env.sorter s
      (record { prices = r ∷ rs; total_weight = sum_by weight_of (r ∷ rs) })
      (record { prices = r' ∷ rs'; total_weight = sum_by weight_of (r' ∷ rs') }) (λ e. cc) refl refl
      p,
)

-- Validators that see the same reports agree on every price: if the reports of two provider maps are
-- the same up to order, then `median` gives both the same entry for every pair, also where the two
-- runs use different stable sorts. (The total is known, and the quotient by it does not panic.)
pub median_deterministic :
    (env : MedianEnv) (s : StableSort PricePerValidator) (providers providers' : Dict Text Prices)
    {total : ℕ}
    → env.total_bonded_tokens ≡ some total
    → NoPanic env total
    → Perm (reports env.validator providers) (reports env.validator providers')
    → (prices prices' : Prices) × (median env providers ≡ some prices)
      × (median (with_sorter env s) providers' ≡ some prices')
      × ((cp : CurrencyPair)
          → get CurrencyPair-discrete cp prices ≡ get CurrencyPair-discrete cp prices')
median_deterministic env s providers providers' {total} t np p =
    let (prices, e, h) = median-quorum_price env providers t np in
    let (prices', e', h') =
      median-quorum_price (with_sorter env s) providers' t
        (λ w. rw (same_decision env s total w) (np w)) in
    (
      prices,
      prices',
      e,
      e',
      λ cp. h cp ∙ quorum_price-perm env s total _ _ (for_pair-perm cp p) ∙ sym (h' cp),
    )
