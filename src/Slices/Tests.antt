-- ===== src/Slices/Tests.antt =====
-- Runs of pkg/slices, and of the batches of an API query.
use orynx.Prelude.{ℕ, ◌≡◌, refl, List, [], ◌∷◌, some, arith}
use orynx.Slices.{chunk, chunk_loop, batches, batches_from}
use orynx.Slices.Cover.{IsCover, chunk-IsCover}

abbrev five : List ℕ
five = 1 ∷ 2 ∷ 3 ∷ 4 ∷ 5 ∷ []

-- The example of the comment on `Chunk`.
five_chunked : chunk 9 five 2 ≡ some ((1 ∷ 2 ∷ []) ∷ (3 ∷ 4 ∷ []) ∷ (5 ∷ []) ∷ [])
unfolding chunk chunk_loop
five_chunked = refl

five_batched : batches 2 five ≡ (1 ∷ 2 ∷ []) ∷ (3 ∷ 4 ∷ []) ∷ (5 ∷ []) ∷ []
unfolding batches batches_from
five_batched = refl

chunk-IsCover_example :
    (chunks : List (List ℕ)) × (chunk 6 five 2 ≡ some chunks) × IsCover 2 five chunks
chunk-IsCover_example = chunk-IsCover 6 2 five (omega arith) (omega arith)
