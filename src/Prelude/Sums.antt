-- ===== src/Prelude/Sums.antt =====
-- Sums over a list, which do not depend on its order.
use mathlib.Core.Logic.{∥∥₁_elim}
use mathlib.Core.List.{Permᴰ, Perm}
use native.Mathlib.Nat.{ℕ_set}
use Prim.Native.Nat.{ℕ, ◌+◌, ◌≤◌}
use mathlib.Core.Path.{◌≡◌, refl, ◌∙◌}
use mathlib.Core.List.{List, [], ◌∷◌, ◌++◌}
use native.Mathlib.Omega.{arith}

module _ {ℓ} {A : Type ℓ} where
  abbrev pub sum_by : (A → ℕ) → List A → ℕ
  sum_by f [] = 0
  sum_by f (x ∷ xs) = f x + sum_by f xs

  pub sum_by-append : (f : A → ℕ) (xs ys : List A) → sum_by f (xs ++ ys) ≡ sum_by f xs + sum_by f ys
  sum_by-append f [] ys = omega arith
  sum_by-append f (x ∷ xs) ys = omega (arith, sum_by-append f xs ys)

  pub sum_by_mono : (f g : A → ℕ) (xs : List A) → ((x : A) → f x ≤ g x) → sum_by f xs ≤ sum_by g xs
  sum_by_mono f g [] h = omega arith
  sum_by_mono f g (x ∷ xs) h = omega (arith, h x, sum_by_mono f g xs h)

  sum_by-permᴰ : (f : A → ℕ) {xs ys : List A} → Permᴰ xs ys → sum_by f xs ≡ sum_by f ys
  sum_by-permᴰ f Permᴰ.nil = refl
  sum_by-permᴰ f (Permᴰ.cons e p) = let ih = sum_by-permᴰ f p in rw e (omega (arith, ih))
  sum_by-permᴰ f (Permᴰ.swap e e') = rw (e, e') (omega arith)
  sum_by-permᴰ f (Permᴰ.trans p q) = sum_by-permᴰ f p ∙ sum_by-permᴰ f q

  pub sum_by-perm : (f : A → ℕ) {xs ys : List A} → Perm xs ys → sum_by f xs ≡ sum_by f ys
  sum_by-perm f p = ∥∥₁_elim p (ℕ_set _ _) (sum_by-permᴰ f)
