-- ===== src/Slices/Cover.antt =====
-- Chunks and batches cover their input, in order.
use mathlib.Core.List.{append-nil}
use native.Mathlib.Nat.{zero-add, suc-add, zero-mul}
use orynx.Prelude.{
  ℕ, zero, suc, ◌+◌, ◌-◌, ◌*◌, ◌≤◌, ◌<◌, ◌≡◌, refl, ap, sym, ◌∙◌, List, [], ◌∷◌, ◌++◌, none, some,
  All, length, arith, ltb, leb, inl, inr, Bool-cases,
}
use orynx.Slices.{take, drop, slice, chunk_loop, chunk, batches_from, batches, threads}

module _ {A : Type 0} where
  unfoldable pub concat : List (List A) → List A
  concat [] = []
  concat (xs ∷ xss) = xs ++ concat xss

  take-drop : (n : ℕ) (xs : List A) → take n xs ++ drop n xs ≡ xs
  take-drop zero xs = refl
  take-drop (suc n) [] = refl
  take-drop (suc n) (x ∷ xs) = ap (λ ys. x ∷ ys) (take-drop n xs)

  drop_nil : (n : ℕ) (xs : List A) → xs ≡ [] → drop n xs ≡ []
  drop_nil zero xs e = e
  drop_nil (suc n) [] e = refl
  drop_nil (suc n) (x ∷ xs) e = absurd (ground arith)

  drop-drop : (n i : ℕ) (xs : List A) → drop n (drop i xs) ≡ drop (i + n) xs
  drop-drop n zero xs = rw (zero-add n) refl
  drop-drop n (suc i) [] = drop_nil n [] refl ∙ sym (drop_nil (suc i + n) [] refl)
  drop-drop n (suc i) (x ∷ xs) = rw (suc-add i n) (drop-drop n i xs)

  drop_all : (i : ℕ) (xs : List A) → length xs ≤ i → drop i xs ≡ []
  drop_all zero [] h = refl
  drop_all zero (x ∷ xs) h = absurd (omega arith)
  drop_all (suc i) [] h = refl
  drop_all (suc i) (x ∷ xs) h = drop_all i xs (omega arith)

  length-take : (n : ℕ) (xs : List A) → length (take n xs) ≤ n
  length-take zero xs = omega arith
  length-take (suc n) [] = omega arith
  length-take (suc n) (x ∷ xs) = omega (arith, length-take n xs)

  -- A slice followed by what is left from its end on.
  slice-drop : (i j : ℕ) (xs : List A) → i ≤ j → slice i j xs ++ drop j xs ≡ drop i xs
  slice-drop i j xs h =
      let e : i + (j - i) ≡ j = omega arith in
      ap (λ k. slice i j xs ++ drop k xs) (sym e)
      ∙ ap (λ ys. slice i j xs ++ ys) (sym (drop-drop (j - i) i xs))
      ∙ take-drop (j - i) (drop i xs)

  -- The same, when the end is the length of the list and the next slice would begin later.
  slice-drop_end :
      (i j : ℕ) (xs : List A)
      → i ≤ length xs
      → length xs ≤ j
      → slice i (length xs) xs ++ drop j xs ≡ drop i xs
  slice-drop_end i j xs h k =
      ap (λ ys. slice i (length xs) xs ++ ys)
        (drop_all j xs k ∙ sym (drop_all (length xs) xs (omega arith)))
      ∙ slice-drop i (length xs) xs h

  -- The chunks are no longer than the size, and together they are the input in its order.
  abbrev pub IsCover : ℕ → List A → List (List A) → Type 0
  IsCover size input chunks = (concat chunks ≡ input) × All (λ (c : List A). length c ≤ size) chunks

  chunk_loop_lem :
      (fuel i size : ℕ) (input : List A)
      → 0 < size
      → length input - i < fuel
      → (chunks : List (List A)) × (chunk_loop fuel i size input ≡ some chunks)
        × IsCover size (drop i input) chunks
  unfolding chunk_loop concat
  chunk_loop_lem zero i size input h k = absurd (omega arith)
  chunk_loop_lem (suc fuel) i size input h k = elim (Bool-cases (ltb i (length input))) [
    | inr done ↦ ([], ground arith, (sym (drop_all i input (ground arith)), tt))
    | inl more ↦
        let (rest, e, (c, b)) = chunk_loop_lem fuel (i + size) size input h (ground arith) in
        elim (Bool-cases (ltb (length input) (i + size))) [
          | inl over ↦
              let short = length-take (length input - i) (drop i input) in
              let all =
                ap (λ ys. slice i (length input) input ++ ys) c
                ∙ slice-drop_end i (i + size) input (ground arith) (ground arith) in
              (slice i (length input) input ∷ rest, ground arith, (all, (ground (arith, short), b)))
          | inr within ↦
              let short = length-take (i + size - i) (drop i input) in
              let all =
                ap (λ ys. slice i (i + size) input ++ ys) c
                ∙ slice-drop i (i + size) input (omega arith) in
              (slice i (i + size) input ∷ rest, ground arith, (all, (omega (arith, short), b)))
        ]
  ]

  -- With a positive size, and fuel for one more turn than the input is long, `Chunk` terminates; its
  -- chunks have at most the size, and together they are the input in its order.
  pub chunk-IsCover :
      (fuel size : ℕ) (input : List A)
      → 0 < size
      → length input < fuel
      → (chunks : List (List A)) × (chunk fuel input size ≡ some chunks) × IsCover size input chunks
  unfolding chunk concat
  chunk-IsCover fuel size input h k = elim (Bool-cases (leb (length input) size)) [
    | inl short ↦ (input ∷ [], ground arith, (append-nil input, (ground arith, tt)))
    | inr long ↦
        let (chunks, e, c) = chunk_loop_lem fuel 0 size input h (omega arith) in
        (chunks, ground arith, c)
  ]

  chunk_loop_zero :
      (fuel : ℕ) (input : List A) → 0 < length input → chunk_loop fuel 0 0 input ≡ none
  unfolding chunk_loop
  chunk_loop_zero zero input h = refl
  chunk_loop_zero (suc fuel) input h = ground (arith, chunk_loop_zero fuel input h)

  -- With the size 0, `Chunk` does not terminate on an input that is not empty, whatever the fuel.
  pub chunk_zero : (fuel : ℕ) (input : List A) → 0 < length input → chunk fuel input 0 ≡ none
  unfolding chunk
  chunk_zero fuel input h = ground (arith, chunk_loop_zero fuel input h)

  batches_from_lem :
      (n i size : ℕ) (ids : List A)
      → 0 < size
      → length ids ≤ i * size + n * size
      → i * size + n * size < length ids + size
      → IsCover size (drop (i * size) ids) (batches_from n i size ids)
  unfolding batches_from concat
  batches_from_lem zero i size ids h l m =
      (sym (drop_all (i * size) ids (omega (arith, zero-mul size))), tt)
  batches_from_lem (suc n) i size ids h l m =
      let next : (i + 1) * size ≡ i * size + size = grind arith in
      let more : suc n * size ≡ n * size + size = grind arith in
      let (c, b) = batches_from_lem n (i + 1) size ids h (omega arith) (omega arith) in
      elim (Bool-cases (ltb ((i + 1) * size) (length ids))) [
        | inl within ↦
            let short = length-take ((i + 1) * size - i * size) (drop (i * size) ids) in
            (
              rw within (
                  ap (λ ys. slice (i * size) ((i + 1) * size) ids ++ ys) c
                  ∙ slice-drop (i * size) ((i + 1) * size) ids (omega arith)),
              (rw within (omega (arith, short)), b),
            )
        | inr over ↦
            let short = length-take (length ids - i * size) (drop (i * size) ids) in
            (
              rw over (
                  ap (λ ys. slice (i * size) (length ids) ids ++ ys) c
                  ∙ slice-drop_end (i * size) ((i + 1) * size) ids (omega arith) (ground arith)),
              (rw over (ground (arith, short)), b),
            )
      ]

  -- With a positive size, the batches of `Query` have at most the size, and together they are the IDs in
  -- their order, each once.
  pub batches-IsCover : (size : ℕ) (ids : List A) → 0 < size → IsCover size ids (batches size ids)
  unfolding batches
  batches-IsCover size ids h =
      let n = threads size ids in
      let above : n * size ≤ length ids + size - 1 = grind arith in
      let below : length ids + size - 1 < n * size + size = grind arith in
      let none : 0 * size ≡ 0 = zero-mul size in
      rw none at (batches_from_lem n 0 size ids h (omega arith) (omega arith))

  length-batches_from : (n i size : ℕ) (ids : List A) → length (batches_from n i size ids) ≡ n
  unfolding batches_from
  length-batches_from zero i size ids = refl
  length-batches_from (suc n) i size ids = ap suc (length-batches_from n (i + 1) size ids)

  pub length-batches : (size : ℕ) (ids : List A) → length (batches size ids) ≡ threads size ids
  unfolding batches
  length-batches size ids = length-batches_from (threads size ids) 0 size ids
