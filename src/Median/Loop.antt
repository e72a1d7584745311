-- ===== src/Median/Loop.antt =====
-- The loop of `ComputeMedian` (pkg/math/voteweighted/voteweighted.go) over sorted reports.
use orynx.Prelude.{
  ℕ, ◌+◌, ◌≤◌, ◌<◌, ◌≡◌, ◌≢◌, ◌⊎◌, inl, inr, refl, List, [], ◌∷◌, some, arith, true, All, leb,
  Bool-cases, false,
}
use orynx.Prelude.Int.{ℤ, ltb_ℤ}
use orynx.Prelude.Sums.{sum_by}
use orynx.Prelude.Sorting.{IsSortedBy, IsTotalOrder}
use orynx.Median.{PricePerValidator, less, median_loop}
use orynx.Median.Weights.{weight_of, weight_upto, weight_below, one_at, one_below}

less_total : (a b : PricePerValidator) → (less a b ≡ true) ⊎ (less b a ≡ true)
less_total a b = ground arith

less_trans : (a b c : PricePerValidator) → less a b ≡ true → less b c ≡ true → less a c ≡ true
less_trans a b c h k = ground arith

-- The comparison of the source orders the reports by price.
pub less-IsTotalOrder : IsTotalOrder less
less-IsTotalOrder = record { total = less_total; trans = less_trans }

-- What the loop finds when it enters with the sum `sum` of the reports before `ps`.
pub record Found (middle sum : ℕ) (ps : List PricePerValidator) (m : ℤ) : Type 0 where
  pub reported : 0 < sum_by (one_at m) ps
  pub reached : middle ≤ sum + sum_by (weight_upto m) ps
  pub least : (sum + sum_by (weight_below m) ps < middle) ⊎ (sum_by (one_below m) ps ≡ 0)

nothing_below :
    (p : PricePerValidator) (ps : List PricePerValidator)
    → All (λ q. less p q ≡ true) ps
    → sum_by (one_below p.price) ps ≡ 0
nothing_below p [] h = refl
nothing_below p (q ∷ ps) h = ground (arith, nothing_below p ps h.1)

no_weight_below :
    (m : ℤ) (ps : List PricePerValidator)
    → sum_by (one_below m) ps ≡ 0
    → sum_by (weight_below m) ps ≡ 0
no_weight_below m [] h = refl
no_weight_below m (q ∷ ps) h = ground (arith, no_weight_below m ps)

-- A reported price of the rest is not below the first one.
head_least :
    (p : PricePerValidator) (ps : List PricePerValidator) (m : ℤ)
    → All (λ q. less p q ≡ true) ps
    → 0 < sum_by (one_at m) ps
    → ltb_ℤ m p.price ≡ false
head_least p [] m a h = absurd (omega arith)
head_least p (q ∷ ps) m a h = ground (arith, head_least p ps m a.1)

Found-here :
    (middle sum : ℕ) (p : PricePerValidator) (ps : List PricePerValidator)
    → All (λ q. less p q ≡ true) ps
    → middle ≤ sum + p.vote_weight
    → Found middle sum (p ∷ ps) p.price
Found-here middle sum p ps a h = ground (arith, nothing_below p ps a)

Found-later :
    (middle sum : ℕ) (p : PricePerValidator) (ps : List PricePerValidator) (m : ℤ)
    → All (λ q. less p q ≡ true) ps
    → sum + p.vote_weight < middle
    → Found middle (sum + p.vote_weight) ps m
    → Found middle sum (p ∷ ps) m
Found-later middle sum p ps m a h f =
    ground (arith, f, head_least p ps m a f.reported, no_weight_below m ps)

-- If the weight that is left suffices, the loop returns a price as described by `Found`.
pub median_loop-Found :
    (middle sum : ℕ) (ps : List PricePerValidator)
    → ps ≢ []
    → IsSortedBy less ps
    → middle ≤ sum + sum_by weight_of ps
    → (m : ℤ) × (median_loop middle sum ps ≡ some m) × Found middle sum ps m
unfolding median_loop
median_loop-Found middle sum [] n s h = absurd (n refl)
median_loop-Found middle sum (p ∷ []) n s h =
    (p.price, ground arith, Found-here middle sum p [] tt (ground arith))
median_loop-Found middle sum (p ∷ q ∷ ps) n s h =
    elim (Bool-cases (leb middle (sum + p.vote_weight))) [
      | inl e ↦ (p.price, rw e refl, Found-here middle sum p (q ∷ ps) s.0 (ground arith))
      | inr e ↦
          let (m, found, f) =
            median_loop-Found middle (sum + p.vote_weight) (q ∷ ps) (λ e'. cc) s.1 (ground arith) in
          (m, rw e found, Found-later middle sum p (q ∷ ps) m s.0 (ground arith) f)
    ]
