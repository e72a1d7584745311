-- ===== src/CurrencyPair/Format.antt =====
-- Which currency pairs `ValidateBasic` accepts (pkg/types/currency_pair.go).
use orynx.Prelude.{
  ℕ, ◌≤◌, ◌<◌, ◌≡◌, ◌≢◌, ◌↔◌, ◌⊎◌, true, false, List, [], ◌∷◌, Text, length, ok, All, arith, map,
  refl, none, some,
}
use orynx.CurrencyPair.{
  CurrencyPair, to_upper, is_upper, is_legacy_asset_string, validate_legacy_asset_string,
  split_defi_asset_string, validate_defi_asset_string, validate_asset, core_validate,
  validate_basic, field_separator, max_cp_field_length, split, contains, three_fields, upper_byte,
  is_empty,
}
use orynx.CurrencyPair.Split.{
  occurrences, length-split, contains-occurrences, contains-occurrences_pos, push_byte,
}

-- A legacy asset has no comma, a defi asset has two; both are in upper case.
abbrev pub IsAsset : Text → Type 0
IsAsset s =
    (to_upper s ≡ s) × ((occurrences field_separator s ≡ 0) ⊎ (occurrences field_separator s ≡ 2))

abbrev pub IsFieldLength : Text → Type 0
IsFieldLength s = (0 < length s) × (length s ≤ max_cp_field_length)

abbrev pub IsWellFormed : CurrencyPair → Type 0
IsWellFormed cp =
    IsFieldLength cp.base × IsFieldLength cp.quote × IsAsset cp.base × IsAsset cp.quote

pub is_upper_iff : (s : Text) → (is_upper s ≡ true) ↔ (to_upper s ≡ s)
unfolding is_upper
is_upper_iff s = ground arith

-- Three fields are the fields of a list of length three.
three_fields-none : (fs : List Text) → length fs ≢ 3 → three_fields fs ≡ none
three_fields-none [] h = refl
three_fields-none (a ∷ []) h = refl
three_fields-none (a ∷ b ∷ []) h = refl
three_fields-none (a ∷ b ∷ c ∷ []) h = absurd (h refl)
three_fields-none (a ∷ b ∷ c ∷ d ∷ r) h = refl

three_fields-some :
    (fs : List Text) → length fs ≡ 3 → (t : Text × Text × Text) × (three_fields fs ≡ some t)
three_fields-some [] h = absurd (omega arith)
three_fields-some (a ∷ []) h = absurd (omega arith)
three_fields-some (a ∷ b ∷ []) h = absurd (omega arith)
three_fields-some (a ∷ b ∷ c ∷ []) h = ((a, b, c), refl)
three_fields-some (a ∷ b ∷ c ∷ d ∷ r) h = absurd (omega arith)

-- Upper case and without a comma, as `validate_legacy_asset_string` wants the token.
abbrev IsClean : Text → Type 0
IsClean s = (map upper_byte s ≡ s) × (contains field_separator s ≡ false)

push_byte-IsClean :
    (c : ℕ) (fs : List Text)
    → upper_byte c ≡ c
    → c ≢ field_separator
    → All IsClean fs
    → All IsClean (push_byte c fs)
unfolding contains
push_byte-IsClean c [] h n p = ground arith
push_byte-IsClean c (f ∷ fs) h n p = ground arith

-- The fields of an upper-case text are in upper case and hold no comma.
split-IsClean : (s : Text) → map upper_byte s ≡ s → All IsClean (split field_separator s)
unfolding split contains
split-IsClean [] h = ground arith
split-IsClean (c ∷ s) h =
    ground (arith, split-IsClean s, push_byte-IsClean c (split field_separator s))

three_fields-IsClean :
    (fs : List Text) (t : Text × Text × Text)
    → All IsClean fs
    → three_fields fs ≡ some t
    → IsClean t.0
three_fields-IsClean [] t p h = cc
three_fields-IsClean (a ∷ []) t p h = cc
three_fields-IsClean (a ∷ b ∷ []) t p h = cc
three_fields-IsClean (a ∷ b ∷ c ∷ []) t p h = ground arith
three_fields-IsClean (a ∷ b ∷ c ∷ d ∷ r) t p h = cc

token-valid : (t : Text × Text × Text) → IsClean t.0 → validate_legacy_asset_string t.0 ≡ ok tt
unfolding validate_legacy_asset_string is_legacy_asset_string is_upper to_upper
token-valid t h = ground arith

defi_valid :
    (s : Text)
    → to_upper s ≡ s
    → occurrences field_separator s ≡ 2
    → validate_defi_asset_string s ≡ ok tt
unfolding validate_defi_asset_string split_defi_asset_string to_upper
defi_valid s u n =
    let (t, e) =
      three_fields-some (split field_separator s) (omega (arith, length-split field_separator s)) in
    let c = three_fields-IsClean (split field_separator s) t (split-IsClean s u) e in
    ground (arith, token-valid t c, is_upper_iff s)

validate_asset_complete : (s : Text) → IsAsset s → validate_asset s ≡ ok tt
unfolding validate_asset validate_legacy_asset_string is_legacy_asset_string
validate_asset_complete s h = ground (
  arith,
  contains-occurrences field_separator s,
  contains-occurrences_pos field_separator s,
  is_upper_iff s,
  defi_valid s,
)

validate_asset_sound : (s : Text) → validate_asset s ≡ ok tt → IsAsset s
unfolding validate_asset validate_legacy_asset_string validate_defi_asset_string
    is_legacy_asset_string split_defi_asset_string
validate_asset_sound s h = ground (
  arith,
  contains-occurrences field_separator s,
  length-split field_separator s,
  three_fields-none (split field_separator s),
  is_upper_iff s,
)

is_empty-length : (s : Text) → (is_empty s ≡ false) ↔ (0 < length s)
is_empty-length [] = ground arith
is_empty-length (c ∷ s) = ground arith

-- `ValidateBasic` accepts a pair exactly when each of its two fields has between 1 and 256 bytes, is
-- in upper case, and holds either no comma or two commas.
pub validate_basic_iff : (cp : CurrencyPair) → (validate_basic cp ≡ ok tt) ↔ IsWellFormed cp
unfolding validate_basic core_validate
validate_basic_iff cp = (
  λ (h : validate_basic cp ≡ ok tt). ground (
    arith,
    is_empty-length cp.base,
    is_empty-length cp.quote,
    validate_asset_sound cp.base,
    validate_asset_sound cp.quote,
  ),
  λ (h : IsWellFormed cp). ground (
    arith,
    is_empty-length cp.base,
    is_empty-length cp.quote,
    validate_asset_complete cp.base,
    validate_asset_complete cp.quote,
  ),
)
