-- ===== src/Abci/Extension/Decimal.antt =====
-- `(*big.Int).SetString` in base 10, as `transformOracleServicePrices` (abci/ve/vote_extension.go) uses
-- it: an optional sign, then digits alone.
use orynx.Prelude.{
  ℕ, ◌+◌, ◌-◌, ◌*◌, Option, none, some, Text, [], ◌∷◌, leb, ◌&&◌, if◌then◌else◌, ite, ℕ_discrete,
}
use orynx.Prelude.Int.{ℤ, pos, negsuc}

abbrev parse_digits : Text → ℕ → Option ℕ
parse_digits [] n = some n
parse_digits (d ∷ ds) n =
    let rest = parse_digits ds (n * 10 + (d - 48)) in if leb 48 d && leb d 57 then rest else none

abbrev parse_natural : Text → Option ℕ
parse_natural [] = none
parse_natural (d ∷ ds) = parse_digits (d ∷ ds) 0

abbrev negated : ℕ → ℤ
negated n = if leb n 0 then pos 0 else negsuc (n - 1)

abbrev with_sign : (ℕ → ℤ) → Option ℕ → Option ℤ
with_sign f none = none
with_sign f (some n) = some (f n)

unfoldable pub parse_decimal : Text → Option ℤ
parse_decimal [] = none
parse_decimal (x ∷ ds) = ite (ℕ_discrete x 43) (with_sign pos (parse_natural ds)) (
    ite (ℕ_discrete x 45) (with_sign negated (parse_natural ds))
      (with_sign pos (parse_natural (x ∷ ds))))
