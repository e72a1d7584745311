-- ===== src/BigMath.antt =====
-- pkg/math/math.go. `big.Float` of math/big is a parameter. A method that may find no number (0/0,
-- 0 * Inf, Inf - Inf) panics there, and returns `none` here. A method of a fresh float rounds to the larger
-- precision of its operands; one that writes to its first operand rounds to that one's.
pub mod Middle
use Prim.Native.Nat.{Ordering}
use orynx.Prelude.{
  ℕ, zero, suc, ◌+◌, ◌-◌, ◌/◌, ◌%◌, ◌^◌, ◌≡◌, ◌≢◌, Bool, true, false, List, [], ◌∷◌, Option, none,
  some, Text, Result, ok, err, or_fail, length, ltb, leb, ◌==◌, if◌then◌else◌,
}
use orynx.Prelude.Int.{ℤ, pos, negsuc, neg_part, pos_part, ltb_ℤ, ◌-ℤ◌}
use orynx.Prelude.Sorting.{StableSort}

pub record Floats : Type 1 where
  pub Float : Type 0
  -- `Cmp`
  pub cmp : Float → Float → Ordering
  -- `new(big.Float).Add(x, y)`, `Mul` and `Quo`
  pub add : Float → Float → Option Float
  pub mul : Float → Float → Option Float
  pub quo : Float → Float → Option Float
  -- `x.Mul(x, y)` and `x.Quo(x, y)`
  pub mul_in_place : Float → Float → Option Float
  pub quo_in_place : Float → Float → Option Float
  -- `big.NewFloat(1)`, `SetInt` of a number that is not negative, and `SetUint64`
  pub new_float_one : Float
  pub set_int : ℕ → Float
  pub set_uint64 : ℕ → Float
  pub cmp_swap : (x y : Float) → cmp x y ≡ Ordering.gt → cmp y x ≡ Ordering.lt
  pub cmp_trans :
      (x y z : Float) → cmp x y ≢ Ordering.gt → cmp y z ≢ Ordering.gt → cmp x z ≢ Ordering.gt

-- `Min` and `Max`; no value is a panic.
unfoldable pub min_from : ℤ → List ℤ → ℤ
min_from minimum [] = minimum
min_from minimum (val ∷ vals) = min_from (if ltb_ℤ val minimum then val else minimum) vals

abbrev pub min : List ℤ → Option ℤ
min [] = none
min (val ∷ vals) = some (min_from val vals)

unfoldable pub max_from : ℤ → List ℤ → ℤ
max_from maximum [] = maximum
max_from maximum (val ∷ vals) = max_from (if ltb_ℤ maximum val then val else maximum) vals

abbrev pub max : List ℤ → Option ℤ
max [] = none
max (val ∷ vals) = some (max_from val vals)

-- `int64` of a `uint64` is negative from 2 ^ 63 on, and `Exp` of `big.Int` is 1 at a negative exponent.
unfoldable pub power_of_ten : ℕ → ℕ
power_of_ten decimals = if leb (2 ^ 63) decimals then 1 else 10 ^ decimals

module _ (f : Floats) where
  open f use {Float, cmp, add, mul_in_place, quo, quo_in_place, new_float_one, set_int, set_uint64}

  -- `ScaleBigFloat`
  unfoldable pub scale_big_float : Float → ℕ → Option Float
  scale_big_float x decimals = mul_in_place x (set_int (power_of_ten decimals))

  -- `BigFloatToBigInt`, where `to_int` is `Int` of a float, nil for an infinity.
  abbrev pub big_float_to_big_int : (Float → Option ℤ) → Float → ℕ → Option (Option ℤ)
  big_float_to_big_int to_int x decimals = elim (scale_big_float x decimals) [
    | none ↦ none
    | some y ↦ some (to_int y)
  ]

  -- The comparison of `SortBigFloats`, which counts equal floats as less too.
  abbrev pub less : Float → Float → Bool
  less x y = elim (cmp x y) [ Ordering.lt ↦ true | Ordering.gt ↦ false | Ordering.eq ↦ true ]

  abbrev pub sort_big_floats : StableSort Float → List Float → List Float
  sort_big_floats s values = s.sort less values

  -- `values[i]`, which panics out of range.
  abbrev pub get_elem? : List Float → ℕ → Option Float
  get_elem? [] i = none
  get_elem? (x ∷ xs) zero = some x
  get_elem? (x ∷ xs) (suc i) = get_elem? xs i

  -- The average of the middle two.
  abbrev pub average : Option Float → Option Float → Option Float
  average (some x) (some y) = elim (add x y) [
    | none ↦ none
    | some z ↦ quo_in_place z (set_uint64 2)
  ]
  average none y = none
  average (some x) none = none

  -- The median of sorted values.
  unfoldable pub middle : List Float → Option Float
  middle sorted =
      let i = length sorted / 2 in
      if length sorted % 2 == 0
      then average (get_elem? sorted (i - 1)) (get_elem? sorted i)
      else get_elem? sorted i

  -- `CalculateMedian`: `some none` is the nil that it returns for no values.
  unfoldable pub calculate_median : StableSort Float → List Float → Option (Option Float)
  calculate_median s [] = some none
  calculate_median s (x ∷ xs) = elim (middle (sort_big_floats s (x ∷ xs))) [
    | none ↦ none
    | some median ↦ some (some median)
  ]

  -- `GetScalingFactor`, whose difference is taken not to wrap.
  unfoldable pub get_scaling_factor : ℤ → ℤ → Option Float
  get_scaling_factor first second =
      let diff = first -ℤ second in
      let exp = set_int (10 ^ (pos_part diff + neg_part diff)) in
      if ltb 0 (pos_part diff) then some exp else quo new_float_one exp
