-- ===== src/Prelude/Counts.antt =====
-- How many keys a map has: a number that is fixed by its lookups.
use orynx.Prelude.Dict.{Dict, get, put, delete, IsMap, get-delete}
use orynx.Prelude.Lists.{length}
use Prim.Native.Nat.{suc, ◌≤◌}
use mathlib.Core.Path.{◌≡◌, refl}
use mathlib.Core.Logic.{◌≢◌}
use mathlib.Core.List.{[], ◌∷◌}
use mathlib.Core.Option.{none}
use native.Mathlib.Omega.{arith}

module _ {ℓ} {K V : Type ℓ} (eq? : Discrete K) where
  pub length-put_new :
      (k : K) (v : V) (m : Dict K V) → get eq? k m ≡ none → length (put eq? k v m) ≡ suc (length m)
  unfolding get put
  length-put_new k v [] h = refl
  length-put_new k v ((j, w) ∷ m) h = ground (arith, length-put_new k v m)

  pub length-put_old :
      (k : K) (v : V) (m : Dict K V) → get eq? k m ≢ none → length (put eq? k v m) ≡ length m
  unfolding get put
  length-put_old k v [] h = absurd (h refl)
  length-put_old k v ((j, w) ∷ m) h = ground (arith, length-put_old k v m)

  delete_absent : (k : K) (m : Dict K V) → get eq? k m ≡ none → delete eq? k m ≡ m
  unfolding get delete
  delete_absent k [] h = refl
  delete_absent k ((j, w) ∷ m) h = ground (arith, delete_absent k m)

  pub length-delete :
      (k : K) (m : Dict K V)
      → IsMap eq? m
      → get eq? k m ≢ none
      → length m ≡ suc (length (delete eq? k m))
  unfolding get delete
  length-delete k [] i h = absurd (h refl)
  length-delete k ((j, w) ∷ m) i h = ground (arith, length-delete k m i.1, delete_absent j m i.0)

  pub delete-IsMap : (k : K) (m : Dict K V) → IsMap eq? m → IsMap eq? (delete eq? k m)
  unfolding delete
  delete-IsMap k [] i = tt
  delete-IsMap k ((j, w) ∷ m) i = ground (arith, delete-IsMap k m i.1, get-delete eq? j k m)

  -- A map whose keys all occur in another one is no longer than that one.
  pub length_mono :
      (m n : Dict K V)
      → IsMap eq? m
      → IsMap eq? n
      → ((k : K) → get eq? k m ≢ none → get eq? k n ≢ none)
      → length m ≤ length n
  unfolding get
  length_mono [] n i j h = omega arith
  length_mono ((k, v) ∷ m) n i j h =
      let shorter =
        length_mono m (delete eq? k n) i.1 (delete-IsMap k n j)
          λ l p. ground (arith, p, h l, i.0, get-delete eq? l k n) in
      omega (arith, shorter, length-delete k n j (h k (ground arith)))

  -- Maps with the same lookups have the same number of keys.
  pub length_of_get :
      (m n : Dict K V)
      → IsMap eq? m
      → IsMap eq? n
      → ((k : K) → get eq? k m ≡ get eq? k n)
      → length m ≡ length n
  length_of_get m n i j h = omega (
    arith,
    length_mono m n i j (λ k p. ground (arith, p, h k)),
    length_mono n m j i (λ k p. ground (arith, p, h k)),
  )
