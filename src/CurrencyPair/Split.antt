-- ===== src/CurrencyPair/Split.antt =====
-- `strings.Split` and `strings.Contains` at a separator of one byte.
use orynx.Prelude.{
  ℕ, suc, ◌≡◌, refl, Bool, false, ◌||◌, List, [], ◌∷◌, ◌++◌, Text, length, arith, ◌==◌,
  if◌then◌else◌,
}

-- Puts a byte in front of the first field.
abbrev pub push_byte : ℕ → List Text → List Text
push_byte c [] = (c ∷ []) ∷ []
push_byte c (f ∷ fs) = (c ∷ f) ∷ fs

unfoldable pub split : ℕ → Text → List Text
split sep [] = [] ∷ []
split sep (c ∷ s) = if c == sep then [] ∷ split sep s else push_byte c (split sep s)

unfoldable pub contains : ℕ → Text → Bool
contains sep [] = false
contains sep (c ∷ s) = (c == sep) || contains sep s

-- How often a byte occurs.
abbrev pub occurrences : ℕ → Text → ℕ
occurrences sep [] = 0
occurrences sep (c ∷ s) = if c == sep then suc (occurrences sep s) else occurrences sep s

-- `strings.Join`
abbrev pub join : ℕ → List Text → Text
join sep [] = []
join sep (f ∷ []) = f
join sep (f ∷ g ∷ fs) = f ++ sep ∷ join sep (g ∷ fs)

length-push_byte :
    (c : ℕ) (fs : List Text) (n : ℕ) → length fs ≡ suc n → length (push_byte c fs) ≡ suc n
length-push_byte c [] n h = omega arith
length-push_byte c (f ∷ fs) n h = h

-- There is one field more than there are separators.
pub length-split : (sep : ℕ) (s : Text) → length (split sep s) ≡ suc (occurrences sep s)
unfolding split
length-split sep [] = refl
length-split sep (c ∷ s) =
    ground (arith, length-split sep s, length-push_byte c (split sep s) (occurrences sep s))

pub contains-occurrences : (sep : ℕ) (s : Text) → contains sep s ≡ false → occurrences sep s ≡ 0
unfolding contains
contains-occurrences sep [] h = refl
contains-occurrences sep (c ∷ s) h = ground (arith, contains-occurrences sep s)

pub contains-occurrences_pos : (sep : ℕ) (s : Text) → occurrences sep s ≡ 0 → contains sep s ≡ false
unfolding contains
contains-occurrences_pos sep [] h = refl
contains-occurrences_pos sep (c ∷ s) h = ground (arith, contains-occurrences_pos sep s)

-- Text without the separator is one field.
pub split_clean : (sep : ℕ) (s : Text) → contains sep s ≡ false → split sep s ≡ s ∷ []
unfolding split contains
split_clean sep [] h = refl
split_clean sep (c ∷ s) h = ground (arith, split_clean sep s)

-- A clean prefix before a separator is the first field.
pub split-append :
    (sep : ℕ) (s t : Text) → contains sep s ≡ false → split sep (s ++ sep ∷ t) ≡ s ∷ split sep t
unfolding split contains
split-append sep [] t h = ground arith
split-append sep (c ∷ s) t h = ground (arith, split-append sep s t)

join-push_byte :
    (sep c : ℕ) (f : Text) (fs : List Text) → join sep ((c ∷ f) ∷ fs) ≡ c ∷ join sep (f ∷ fs)
join-push_byte sep c f [] = refl
join-push_byte sep c f (g ∷ fs) = refl

join-cons :
    (sep : ℕ) (fs : List Text) (n : ℕ) → length fs ≡ suc n → join sep ([] ∷ fs) ≡ sep ∷ join sep fs
join-cons sep [] n h = absurd (omega arith)
join-cons sep (f ∷ fs) n h = refl

join-push :
    (sep c : ℕ) (fs : List Text) (n : ℕ)
    → length fs ≡ suc n
    → join sep (push_byte c fs) ≡ c ∷ join sep fs
join-push sep c [] n h = absurd (omega arith)
join-push sep c (f ∷ fs) n h = join-push_byte sep c f fs

-- Joining the fields gives the text back.
pub join-split : (sep : ℕ) (s : Text) → join sep (split sep s) ≡ s
unfolding split
join-split sep [] = refl
join-split sep (c ∷ s) = ground (
  arith,
  join-split sep s,
  length-split sep s,
  join-cons sep (split sep s) (occurrences sep s),
  join-push sep c (split sep s) (occurrences sep s),
)
