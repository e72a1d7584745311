-- ===== src/BigMath/Middle.antt =====
-- What the median of pkg/math/math.go is, whatever stable sort is used.
use mathlib.Core.List.{Perm}
use orynx.Prelude.{
  ℕ, zero, suc, ◌-◌, ◌/◌, ◌%◌, ◌<◌, ◌≡◌, refl, sym, ap, ◌∙◌, ◌⊎◌, inl, inr, true, List, [], ◌∷◌,
  ◌++◌, Option, none, some, length, length-append, arith, ◌==◌, Bool-cases, Option-cases,
}
use orynx.Prelude.Sums.{sum_by-perm}
use orynx.Prelude.Sorting.{StableSort, IsSortedBy, IsTotalOrder}
use orynx.BigMath.{Floats, less, get_elem?, average, middle, calculate_median}

module _ (f : Floats) where
  open f use {Float, cmp}

  less_total : (x y : Float) → (less f x y ≡ true) ⊎ (less f y x ≡ true)
  less_total x y = ground (arith, f.cmp_swap x y)

  less_trans : (x y z : Float) → less f x y ≡ true → less f y z ≡ true → less f x z ≡ true
  less_trans x y z h k = ground (arith, f.cmp_trans x y z)

  pub less-IsTotalOrder : IsTotalOrder (less f)
  less-IsTotalOrder = record { total = less_total; trans = less_trans }

  -- As many values stand before the median as after it; for an even number of values the median is the
  -- average of the two in the middle, their sum divided by two.
  abbrev pub IsMedian : List Float → Float → Type 0
  IsMedian sorted median =
      ((below : List Float) × (above : List Float) × (sorted ≡ below ++ (median ∷ above))
        × (length below ≡ length above))
      ⊎ (below : List Float) × (x : Float) × (y : Float) × (above : List Float) × (sum : Float)
        × (sorted ≡ below ++ (x ∷ y ∷ above))
        × (length below ≡ length above)
        × (f.add x y ≡ some sum)
        × (f.quo_in_place sum (f.set_uint64 2) ≡ some median)

  get_elem?_split :
      (values : List Float) (i : ℕ) {x : Float}
      → get_elem? f values i ≡ some x
      → (below : List Float) × (above : List Float) × (values ≡ below ++ (x ∷ above))
        × (length below ≡ i)
  get_elem?_split [] i {x} e = absurd (ground arith)
  get_elem?_split (v ∷ values) zero {x} e = ([], values, ground arith, refl)
  get_elem?_split (v ∷ values) (suc i) {x} e =
      let (below, above, split, size) = get_elem?_split values i {x = x} e in
      (v ∷ below, above, ap (λ vs. v ∷ vs) split, ap suc size)

  -- Two neighbours.
  get_pair_split :
      (values : List Float) (i : ℕ) {x y : Float}
      → get_elem? f values i ≡ some x
      → get_elem? f values (suc i) ≡ some y
      → (below : List Float) × (above : List Float) × (values ≡ below ++ (x ∷ y ∷ above))
        × (length below ≡ i)
  get_pair_split [] i {x} {y} e g = absurd (ground arith)
  get_pair_split (v ∷ []) zero {x} {y} e g = absurd (ground arith)
  get_pair_split (v ∷ w ∷ values) zero {x} {y} e g = ([], values, ground arith, refl)
  get_pair_split (v ∷ values) (suc i) {x} {y} e g =
      let (below, above, split, size) = get_pair_split values i {x = x} {y = y} e g in
      (v ∷ below, above, ap (λ vs. v ∷ vs) split, ap suc size)

  average_parts :
      (a b : Option Float) {median : Float}
      → average f a b ≡ some median
      → (x : Float) × (y : Float) × (sum : Float) × (a ≡ some x)
        × (b ≡ some y)
        × (f.add x y ≡ some sum)
        × (f.quo_in_place sum (f.set_uint64 2) ≡ some median)
  average_parts none b {median} e = absurd (ground arith)
  average_parts (some x) none {median} e = absurd (ground arith)
  average_parts (some x) (some y) {median} e = elim (Option-cases (f.add x y)) [
    | inl n ↦ absurd (ground arith)
    | inr (sum, p) ↦ (x, y, sum, refl, refl, p, ground arith)
  ]

  middle-IsMedian :
      (sorted : List Float) {median : Float}
      → 0 < length sorted
      → middle f sorted ≡ some median
      → IsMedian sorted median
  unfolding middle
  middle-IsMedian sorted {median} h e =
      let n = length sorted in
      elim (Bool-cases (n % 2 == 0)) [
        | inr odd ↦
            let found : get_elem? f sorted (n / 2) ≡ some median = ground arith in
            let (below, above, split, size) = get_elem?_split sorted (n / 2) {x = median} found in
            let all = ap length split ∙ length-append below (median ∷ above) in
            inl (below, above, split, ground (arith, all, size, odd))
        | inl even ↦
            let found : average f (get_elem? f sorted (n / 2 - 1)) (get_elem? f sorted (n / 2))
                ≡ some median =
              ground arith in
            let (x, y, sum, a, b, added, halved) =
              average_parts (get_elem? f sorted (n / 2 - 1)) (get_elem? f sorted (n / 2))
                {median = median} found in
            let next : n / 2 ≡ suc (n / 2 - 1) = ground (arith, even) in
            let (below, above, split, size) =
              get_pair_split sorted (n / 2 - 1) {x = x} {y = y} a
                (ap (get_elem? f sorted) (sym next) ∙ b) in
            let all = ap length split ∙ length-append below (x ∷ y ∷ above) in
            inr (below, x, y, above, sum, split, ground (arith, all, size, even), added, halved)
      ]

  not_empty : (x : Float) (xs sorted : List Float) → Perm sorted (x ∷ xs) → 0 < length sorted
  not_empty x xs [] p = absurd (omega (arith, sum_by-perm (λ v. 1) p))
  not_empty x xs (y ∷ sorted) p = omega arith

  -- The median of the values in order.
  abbrev pub IsMiddle : List Float → Float → Type 0
  IsMiddle values median =
      (sorted : List Float) × Perm sorted values
      × IsSortedBy (less f) sorted
      × IsMedian sorted median

  pub calculate_median-IsMiddle :
      (s : StableSort Float) (values : List Float) {median : Float}
      → calculate_median f s values ≡ some (some median)
      → IsMiddle values median
  unfolding calculate_median
  calculate_median-IsMiddle s [] h = absurd (ground arith)
  calculate_median-IsMiddle s (x ∷ xs) {median} h =
      let sorted = s.sort (less f) (x ∷ xs) in
      let perm = s.sort-perm (less f) (x ∷ xs) in
      (
        sorted,
        perm,
        s.sort-IsSortedBy (less f) (x ∷ xs) less-IsTotalOrder,
        middle-IsMedian sorted {median = median} (not_empty x xs sorted perm) (ground arith),
      )
