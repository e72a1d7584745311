-- ===== src/Median/Correct.antt =====
-- `ComputeMedian` (pkg/math/voteweighted/voteweighted.go) returns the stake-weighted median, which is
-- one price whatever the order of the reports and whatever stable sort is used.
use mathlib.Core.List.{Perm}
use mathlib.Core.List.Perm
use orynx.Prelude.{◌/◌, ◌≡◌, ◌≢◌, List, [], some, arith, ap, sym}
use orynx.Prelude.Int.{ℤ}
use orynx.Prelude.Sums.{sum_by, sum_by-perm}
use orynx.Prelude.Sorting.{StableSort}
use orynx.Median.{PricePerValidator, PriceInfo, less, compute_median}
use orynx.Median.Weights.{weight_of, IsMedian, IsMedian-perm, IsMedian-unique}
use orynx.Median.Loop.{less-IsTotalOrder, median_loop-Found}

-- The total weight is the sum of the reports' weights, as `Median` keeps it.
abbrev pub IsTotalled : PriceInfo → Type 0
IsTotalled info = info.total_weight ≡ sum_by weight_of info.prices

ne_nil_of_perm : {xs ys : List PricePerValidator} → Perm xs ys → ys ≢ [] → xs ≢ []
ne_nil_of_perm {xs} {ys} p n e = absurd (n (sym (Perm.nil-eq (rw e at p))))

-- With at least one report, `compute_median` returns the weighted median: a price that was reported,
-- such that the reports of at most that price carry half of the total weight, and those below it
-- carry less than half or do not exist.
pub compute_median-IsMedian :
    (s : StableSort PricePerValidator) (info : PriceInfo)
    → info.prices ≢ []
    → IsTotalled info
    → (m : ℤ) × (compute_median s info ≡ some m) × IsMedian (info.total_weight / 2) info.prices m
unfolding compute_median
compute_median-IsMedian s info n t =
    let p = s.sort-perm less info.prices in
    let w = sum_by-perm weight_of p in
    let (m, e, f) =
      median_loop-Found (info.total_weight / 2) 0 (s.sort less info.prices) (ne_nil_of_perm p n)
        (s.sort-IsSortedBy less info.prices less-IsTotalOrder) (omega (arith, w, t)) in
    (m, e, IsMedian-perm _ _ p (ground (arith, f)))

-- The median does not depend on the order in which the reports were collected, nor on the stable sort
-- that is used.
pub compute_median-perm :
    (s s' : StableSort PricePerValidator) (info info' : PriceInfo)
    → info.prices ≢ []
    → IsTotalled info
    → IsTotalled info'
    → Perm info.prices info'.prices
    → compute_median s info ≡ compute_median s' info'
compute_median-perm s s' info info' n t t' p =
    let (m, e, h) = compute_median-IsMedian s info n t in
    let (m', e', h') = compute_median-IsMedian s' info' (ne_nil_of_perm (Perm.symm p) n) t' in
    let same : info.total_weight ≡ info'.total_weight =
      omega (arith, t, t', sum_by-perm weight_of p) in
    let k = IsMedian-perm _ _ (Perm.symm p) (rw (← same) at h') in
    rw (e, e') (ap some (IsMedian-unique info.prices h k))
