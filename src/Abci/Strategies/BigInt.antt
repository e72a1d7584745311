-- ===== src/Abci/Strategies/BigInt.antt =====
-- `GobEncode` and `GobDecode` of `big.Int` (package math/big), as abci/strategies/currencypair uses them
-- for the prices of a vote extension: a byte with the version and the sign, then the absolute value, its
-- highest byte first.
use orynx.Prelude.{
  ℕ, suc, zero, ◌+◌, ◌-◌, ◌*◌, ◌/◌, ◌%◌, ◌^◌, ◌≤◌, ◌<◌, ◌≡◌, ◌↔◌, [], ◌∷◌, Text, Result, ok, err,
  arith, length, if◌then◌else◌, ℕ_discrete, ◌==◌, dec_lt,
}
use orynx.Prelude.Int.{ℤ, pos, negsuc}
use orynx.Abci.{maximum_price_size}
use orynx.Abci.Strategies.{Gob, StrategyError, gob_error}
use orynx.Abci.Strategies.Prices.{IsGob}

-- The bytes of a number in front of others; the first argument is fuel, and the number itself is enough.
abbrev pub big_endian : ℕ → ℕ → Text → Text
big_endian zero n acc = acc
big_endian (suc f) n acc = elim (ℕ_discrete n 0) [
  | yes e ↦ acc
  | no d ↦ big_endian f (n / 256) (n % 256 ∷ acc)
]

-- `setBytes`, from a number that the bytes continue.
abbrev pub set_bytes : Text → ℕ → ℕ
set_bytes [] n = n
set_bytes (b ∷ bs) n = set_bytes bs (n * 256 + b)

abbrev signed : ℕ → ℕ → ℤ
signed sign n = if sign == 0 then pos n else (if n == 0 then pos 0 else negsuc (n - 1))

unfoldable pub big_int_encode : ℤ → Text
big_int_encode (pos n) = 2 ∷ big_endian n n []
big_int_encode (negsuc n) = 3 ∷ big_endian (suc n) (suc n) []

-- A version other than 1 is an error, and no bytes at all are 0.
unfoldable pub big_int_decode : Text → Result StrategyError ℤ
big_int_decode [] = ok (pos 0)
big_int_decode (b ∷ bs) = if b / 2 == 1 then ok (signed (b % 2) (set_bytes bs 0)) else err gob_error

abbrev pub big_int_gob : Gob
big_int_gob = record { gob_encode = λ n. ok (big_int_encode n); gob_decode = big_int_decode }

set_bytes-big_endian :
    (f n : ℕ) (acc : Text) → n ≤ f → set_bytes (big_endian f n acc) 0 ≡ set_bytes acc n
set_bytes-big_endian zero n acc h = ground arith
set_bytes-big_endian (suc f) n acc h = elim (ℕ_discrete n 0) [
  | yes e ↦ ground arith
  | no d ↦ ground (arith, set_bytes-big_endian f (n / 256) (n % 256 ∷ acc) (omega arith))
]

pub length-big_endian :
    (f n k : ℕ) (acc : Text) → n < 256 ^ k → length (big_endian f n acc) ≤ length acc + k
length-big_endian zero n k acc h = omega arith
length-big_endian (suc f) n zero acc h = ground arith
length-big_endian (suc f) n (suc k) acc h = elim (ℕ_discrete n 0) [
  | yes e ↦ ground arith
  | no d ↦ ground (arith, length-big_endian f (n / 256) k (n % 256 ∷ acc) (omega arith))
]

pub big_int_gob-IsGob : IsGob big_int_gob
unfolding big_int_encode big_int_decode
big_int_gob-IsGob (pos n) bz e = ground (arith, set_bytes-big_endian n n [] (omega arith))
big_int_gob-IsGob (negsuc n) bz e =
    ground (arith, set_bytes-big_endian (suc n) (suc n) [] (omega arith))

pow_pos : (k : ℕ) → 0 < 256 ^ k
pow_pos zero = omega arith
pow_pos (suc k) = omega (arith, pow_pos k)

length-big_endian_grows : (f n : ℕ) (acc : Text) → length acc ≤ length (big_endian f n acc)
length-big_endian_grows zero n acc = omega arith
length-big_endian_grows (suc f) n acc = elim (ℕ_discrete n 0) [
  | yes e ↦ ground arith
  | no d ↦ ground (arith, length-big_endian_grows f (n / 256) (n % 256 ∷ acc))
]

length-big_endian_above :
    (f n k : ℕ) (acc : Text) → n ≤ f → 256 ^ k ≤ n → length acc + k < length (big_endian f n acc)
length-big_endian_above zero n k acc h b = absurd (omega (arith, pow_pos k))
length-big_endian_above (suc f) n zero acc h b = elim (ℕ_discrete n 0) [
  | yes e ↦ absurd (omega arith)
  | no d ↦ ground (arith, length-big_endian_grows f (n / 256) (n % 256 ∷ acc))
]
length-big_endian_above (suc f) n (suc k) acc h b = elim (ℕ_discrete n 0) [
  | yes e ↦ absurd (omega (arith, pow_pos (suc k)))
  | no d ↦
      ground
        (arith, length-big_endian_above f (n / 256) k (n % 256 ∷ acc) (omega arith) (omega arith))
]

fits_iff : (n : ℕ) → (length (big_endian n n []) ≤ 32) ↔ (n < 256 ^ 32)
fits_iff n = (
  λ e. elim (dec_lt n (256 ^ 32)) [
    | yes p ↦ p
    | no q ↦ absurd (omega (arith, length-big_endian_above n n 32 [] (omega arith) (omega arith)))
  ],
  λ e. omega (arith, length-big_endian n n 32 [] e),
)

abbrev pub magnitude : ℤ → ℕ
magnitude (pos n) = n
magnitude (negsuc n) = suc n

-- The limit of `MaximumPriceSize`, 33 bytes, holds exactly the integers whose absolute value has at most
-- 256 bits.
pub length-big_int_encode_iff :
    (p : ℤ) → (length (big_int_encode p) ≤ maximum_price_size) ↔ (magnitude p < 256 ^ 32)
unfolding big_int_encode
length-big_int_encode_iff (pos n) =
    (λ e. (fits_iff n).0 (ground arith), λ e. ground (arith, (fits_iff n).1 (ground arith)))
length-big_int_encode_iff (negsuc n) = (
  λ e. (fits_iff (suc n)).0 (ground arith),
  λ e. ground (arith, (fits_iff (suc n)).1 (ground arith)),
)
