-- ===== src/Slices.antt =====
-- pkg/slices/slices.go, pkg/arrays/arrays.go and the batches of providers/base/api/handlers.
pub mod Cover
pub mod Tests
use orynx.Prelude.{
  ℕ, zero, suc, ◌+◌, ◌-◌, ◌*◌, ◌/◌, ◌%◌, ◌≡◌, Bool, List, [], ◌∷◌, Option, none, some, length, ite,
  ltb, leb, if◌then◌else◌,
}

module _ {A : Type 0} where
  abbrev pub take : ℕ → List A → List A
  take zero xs = []
  take (suc n) [] = []
  take (suc n) (x ∷ xs) = x ∷ take n xs

  abbrev pub drop : ℕ → List A → List A
  drop zero xs = xs
  drop (suc n) [] = []
  drop (suc n) (x ∷ xs) = drop n xs

  -- `xs[i:j]`
  abbrev pub slice : ℕ → ℕ → List A → List A
  slice i j xs = take (j - i) (drop i xs)

  abbrev pub add_chunk : List A → Option (List (List A)) → Option (List (List A))
  add_chunk c none = none
  add_chunk c (some cs) = some (c ∷ cs)

  -- The loop of `Chunk` from the index `i`, on fuel; `none` means that the fuel ran out.
  pub chunk_loop : ℕ → ℕ → ℕ → List A → Option (List (List A))
  chunk_loop zero i size input = none
  chunk_loop (suc fuel) i size input =
      let end = if ltb (length input) (i + size) then length input else i + size in
      let rest = chunk_loop fuel (i + size) size input in
      if ltb i (length input) then add_chunk (slice i end input) rest else some []

  -- `Chunk`
  unfoldable pub chunk : ℕ → List A → ℕ → Option (List (List A))
  chunk fuel input size =
      if leb (length input) size then some (input ∷ []) else chunk_loop fuel 0 size input

  -- `CheckEntryInArray`
  pub check_entry_in_array : Discrete A → A → List A → Option A
  check_entry_in_array eq? entry [] = none
  check_entry_in_array eq? entry (e ∷ array) =
      ite (eq? e entry) (some e) (check_entry_in_array eq? entry array)

  -- `Min(len(ids), (i+1)*batchSize)`
  abbrev pub batch_end : ℕ → ℕ → List A → ℕ
  batch_end i size ids = if ltb ((i + 1) * size) (length ids) then (i + 1) * size else length ids

  -- The loop of `Query` that makes a task for each batch: `n` turns from the `i`-th on.
  unfoldable pub batches_from : ℕ → ℕ → ℕ → List A → List (List A)
  batches_from zero i size ids = []
  batches_from (suc n) i size ids =
      slice (i * size) (batch_end i size ids) ids ∷ batches_from n (i + 1) size ids

  -- The number of tasks; the quotient of the lengths as floats is taken to be exact.
  abbrev pub threads : ℕ → List A → ℕ
  threads size ids = (length ids + size - 1) / size

  -- The batches of `Query` for a configuration that is not atomic.
  unfoldable pub batches : ℕ → List A → List (List A)
  batches size ids = batches_from (threads size ids) 0 size ids
