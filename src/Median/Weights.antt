-- ===== src/Median/Weights.antt =====
-- How much voting weight stands below a price, for pkg/math/voteweighted/voteweighted.go. These sums
-- do not depend on the order of the reports.
use mathlib.Core.List.{Perm}
use orynx.Prelude.{
  ℕ, ◌≤◌, ◌<◌, ◌≡◌, ◌⊎◌, List, arith, if◌then◌else◌, inl, inr, true, false, Bool-cases,
}
use orynx.Prelude.Int.{ℤ, ltb_ℤ, eq_of_parts}
use orynx.Prelude.Sums.{sum_by, sum_by_mono, sum_by-perm}
use orynx.Median.{PricePerValidator}

abbrev pub weight_of : PricePerValidator → ℕ
weight_of p = p.vote_weight

abbrev pub weight_upto : ℤ → PricePerValidator → ℕ
weight_upto m p = if ltb_ℤ m p.price then 0 else p.vote_weight

abbrev pub weight_below : ℤ → PricePerValidator → ℕ
weight_below m p = if ltb_ℤ p.price m then p.vote_weight else 0

abbrev pub one_at : ℤ → PricePerValidator → ℕ
one_at m p = if ltb_ℤ p.price m then 0 else if ltb_ℤ m p.price then 0 else 1

abbrev pub one_below : ℤ → PricePerValidator → ℕ
one_below m p = if ltb_ℤ p.price m then 1 else 0

-- `m` is a price that was reported, the reports of at most `m` carry the weight `middle`, and those
-- below `m` do not, or there are none.
pub record IsMedian (middle : ℕ) (reports : List PricePerValidator) (m : ℤ) : Type 0 where
  pub reported : 0 < sum_by (one_at m) reports
  pub reached : middle ≤ sum_by (weight_upto m) reports
  pub least : (sum_by (weight_below m) reports < middle) ⊎ (sum_by (one_below m) reports ≡ 0)

pub IsMedian-perm :
    {middle : ℕ} {m : ℤ} (ps qs : List PricePerValidator)
    → Perm ps qs
    → IsMedian middle ps m
    → IsMedian middle qs m
IsMedian-perm {m} ps qs p h = ground (
  arith,
  sum_by-perm (one_at m) p,
  sum_by-perm (weight_upto m) p,
  sum_by-perm (weight_below m) p,
  sum_by-perm (one_below m) p,
)

one_below_mono :
    (m n : ℤ) (ps : List PricePerValidator)
    → ltb_ℤ m n ≡ true
    → sum_by (one_at m) ps ≤ sum_by (one_below n) ps
one_below_mono m n ps h = sum_by_mono (one_at m) (one_below n) ps (λ p. ground arith)

weight_below_mono :
    (m n : ℤ) (ps : List PricePerValidator)
    → ltb_ℤ m n ≡ true
    → sum_by (weight_upto m) ps ≤ sum_by (weight_below n) ps
weight_below_mono m n ps h = sum_by_mono (weight_upto m) (weight_below n) ps (λ p. ground arith)

not_below :
    {middle : ℕ} {m n : ℤ} (ps : List PricePerValidator)
    → IsMedian middle ps m
    → IsMedian middle ps n
    → ltb_ℤ m n ≡ false
not_below {m} {n} ps h k = elim (Bool-cases (ltb_ℤ m n)) [
  | inl e ↦ absurd (ground (arith, h, k, one_below_mono m n ps e, weight_below_mono m n ps e))
  | inr e ↦ e
]

-- There is at most one median.
pub IsMedian-unique :
    {middle : ℕ} {m n : ℤ} (ps : List PricePerValidator)
    → IsMedian middle ps m
    → IsMedian middle ps n
    → m ≡ n
IsMedian-unique {m} {n} ps h k = ground (arith, not_below ps h k, not_below ps k h, eq_of_parts m n)
