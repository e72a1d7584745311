-- ===== src/Median.antt =====
-- pkg/math/voteweighted/voteweighted.go: the stake-weighted median over the validators' prices.
-- A `math.Int` weight is a number, since the staking module's bonded tokens are never negative; a
-- `*big.Int` price is an integer, or `none` where the pointer is nil.
pub mod Weights
pub mod Loop
pub mod Correct
pub mod Collect
pub mod Quorum
pub mod Tests
use orynx.Prelude.{
  ℕ, ◌+◌, ◌/◌, Bool, true, false, List, [], ◌∷◌, ◌++◌, Option, none, some, leb, if◌then◌else◌, Text,
}
use orynx.Prelude.Int.{ℤ, ltb_ℤ}
use orynx.Prelude.Dict.{Dict, get, put}
use orynx.Prelude.Sorting.{StableSort}
use orynx.CurrencyPair.{CurrencyPair, CurrencyPair-discrete}

pub record PricePerValidator : Type 0 where
  pub vote_weight : ℕ
  pub price : ℤ

pub record PriceInfo : Type 0 where
  pub prices : List PricePerValidator
  pub total_weight : ℕ

-- The comparison of `ComputeMedian`: `Cmp` returns -1, 1 or 0, and 0 counts as less too.
abbrev pub less : PricePerValidator → PricePerValidator → Bool
less a b = if ltb_ℤ a.price b.price then true else if ltb_ℤ b.price a.price then false else true

abbrev is_nil : List PricePerValidator → Bool
is_nil [] = true
is_nil (p ∷ ps) = false

-- The loop of `ComputeMedian` from a running sum; `none` is its final `return nil`.
unfoldable pub median_loop : ℕ → ℕ → List PricePerValidator → Option ℤ
median_loop middle sum [] = none
median_loop middle sum (p ∷ ps) =
    let sum' = sum + p.vote_weight in
    if leb middle sum'
    then some p.price
    else (if is_nil ps then some p.price else median_loop middle sum' ps)

unfoldable pub compute_median : StableSort PricePerValidator → PriceInfo → Option ℤ
compute_median s info = median_loop (info.total_weight / 2) 0 (s.sort less info.prices)

-- What `Median` uses of other packages. `validator` is `sdk.ConsAddressFromBech32` followed by
-- `ValidatorByConsAddr` and `GetBondedTokens`, `none` if either call fails; `total_bonded_tokens` is
-- `none` if the store fails, which panics. A `LegacyDec` quotient by zero panics too.
pub record MedianEnv : Type 1 where
  pub validator : Text → Option ℕ
  pub total_bonded_tokens : Option ℕ
  pub LegacyDec : Type 0
  pub from_int : ℕ → LegacyDec
  pub quo : LegacyDec → LegacyDec → Option LegacyDec
  pub gte : LegacyDec → LegacyDec → Bool
  pub threshold : LegacyDec
  pub sorter : StableSort PricePerValidator

-- `map[CurrencyPair]*big.Int`
abbrev pub Prices : Type 0
Prices = Dict CurrencyPair (Option ℤ)

-- The entry of a pair, made if it is not there.
abbrev pub info_or_new : Option PriceInfo → PriceInfo
info_or_new none = record { prices = []; total_weight = 0 }
info_or_new (some info) = info

abbrev pub add_report : ℕ → ℤ → PriceInfo → PriceInfo
add_report weight price info = record {
  prices = info.prices ++ record { vote_weight = weight; price = price } ∷ [];
  total_weight = info.total_weight + weight;
}

-- The inner loop, over the prices of one validator.
pub add_prices : ℕ → Prices → Dict CurrencyPair PriceInfo → Dict CurrencyPair PriceInfo
add_prices weight [] infos = infos
add_prices weight ((cp, none) ∷ ps) infos = add_prices weight ps infos
add_prices weight ((cp, some price) ∷ ps) infos = add_prices weight ps (
    put CurrencyPair-discrete cp
      (add_report weight price (info_or_new (get CurrencyPair-discrete cp infos))) infos)

abbrev add_validator : Option ℕ → Prices → Dict CurrencyPair PriceInfo → Dict CurrencyPair PriceInfo
add_validator none ps infos = infos
add_validator (some weight) ps infos = add_prices weight ps infos

-- The first loop of `Median`, over the validators.
pub collect_prices :
    (Text → Option ℕ) → Dict Text Prices → Dict CurrencyPair PriceInfo → Dict CurrencyPair PriceInfo
collect_prices validator [] infos = infos
collect_prices validator ((address, ps) ∷ rest) infos =
    collect_prices validator rest (add_validator (validator address) ps infos)

module _ (env : MedianEnv) where
  -- The share of the voting power that reported a pair is at least the threshold; `none` panics.
  unfoldable pub meets_threshold : ℕ → ℕ → Option Bool
  meets_threshold weight total = elim (env.quo (env.from_int weight) (env.from_int total)) [
    | none ↦ none
    | some percent ↦ some (env.gte percent env.threshold)
  ]

  abbrev pub decide_price : CurrencyPair → PriceInfo → Option Bool → Option Prices → Option Prices
  decide_price cp info none rest = none
  decide_price cp info (some false) rest = rest
  decide_price cp info (some true) none = none
  decide_price cp info (some true) (some prices) =
      some ((cp, compute_median env.sorter info) ∷ prices)

  -- The second loop of `Median`, over the collected pairs.
  pub select_prices : ℕ → Dict CurrencyPair PriceInfo → Option Prices
  select_prices total [] = some []
  select_prices total ((cp, info) ∷ infos) =
      decide_price cp info (meets_threshold info.total_weight total) (select_prices total infos)

  -- `Median`; `none` is a panic.
  unfoldable pub median : Dict Text Prices → Option Prices
  median providers = elim env.total_bonded_tokens [
    | none ↦ none
    | some total ↦ select_prices total (collect_prices env.validator providers [])
  ]
