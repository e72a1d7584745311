-- ===== src/Prelude/Dict.antt =====
-- A Go map: its entries in the order of one iteration over it. A statement that must hold for every
-- iteration order ranges over every such list.
use mathlib.Core.Path.{◌≡◌, refl}
use mathlib.Core.Logic.{ite}
use mathlib.Core.List.{List, [], ◌∷◌}
use mathlib.Core.Option.{Option, none, some}
use native.Mathlib.Omega.{arith}

abbrev pub Dict {ℓ} : Type ℓ → Type ℓ → Type ℓ
Dict K V = List (K × V)

module _ {ℓ} {K V : Type ℓ} (eq? : Discrete K) where
  -- `v, ok := m[k]`
  unfoldable pub get : K → Dict K V → Option V
  get k [] = none
  get k ((j, v) ∷ m) = ite (eq? k j) (some v) (get k m)

  -- `m[k] = v`
  unfoldable pub put : K → V → Dict K V → Dict K V
  put k v [] = (k, v) ∷ []
  put k v (e ∷ m) = ite (eq? k e.0) ((k, v) ∷ m) (e ∷ put k v m)

  -- `delete(m, k)`
  unfoldable pub delete : K → Dict K V → Dict K V
  delete k [] = []
  delete k (e ∷ m) = ite (eq? k e.0) (delete k m) (e ∷ delete k m)

  pub get-put :
      (j k : K) (v : V) (m : Dict K V) → get j (put k v m) ≡ ite (eq? j k) (some v) (get j m)
  unfolding get put
  get-put j k v [] = refl
  get-put j k v (e ∷ m) = ground (arith, get-put j k v m)

  pub get-delete : (j k : K) (m : Dict K V) → get j (delete k m) ≡ ite (eq? j k) none (get j m)
  unfolding get delete
  get-delete j k [] = ground arith
  get-delete j k (e ∷ m) = ground (arith, get-delete j k m)

  -- No key is listed twice, as in a Go map.
  abbrev pub IsMap : Dict K V → Type ℓ
  IsMap [] = Unit
  IsMap ((k, v) ∷ m) = (get k m ≡ none) × IsMap m

  pub put-IsMap : (k : K) (v : V) (m : Dict K V) → IsMap m → IsMap (put k v m)
  unfolding get put
  put-IsMap k v [] h = (refl, tt)
  put-IsMap k v ((j, w) ∷ m) h = ground (arith, put-IsMap k v m h.1, get-put j k v m)
