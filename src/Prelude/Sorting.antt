-- ===== src/Prelude/Sorting.antt =====
-- `sort.SliceStable` as a parameter: for a test that is total and transitive it returns the same
-- entries in an order that agrees with the test. Insertion sort meets this.
use mathlib.Core.Logic.{◌⊎◌, inl, inr}
use mathlib.Core.Path.{◌≡◌}
use mathlib.Core.Bool.{Bool, true}
use mathlib.Core.List.{List, [], ◌∷◌, Perm}
use mathlib.Core.List.Perm
use native.Mathlib.Omega.{arith}
use orynx.Prelude.Lists.{All}
use orynx.Prelude.Tests.{if◌then◌else◌, Bool-cases}

module _ {ℓ} {A : Type ℓ} where
  -- Every entry is in order with all the later ones.
  abbrev pub IsSortedBy : (A → A → Bool) → List A → Type 0
  IsSortedBy less [] = Unit
  IsSortedBy less (x ∷ xs) = All (λ y. less x y ≡ true) xs × IsSortedBy less xs

  pub record IsTotalOrder (less : A → A → Bool) : Type ℓ where
    pub total : (a b : A) → (less a b ≡ true) ⊎ (less b a ≡ true)
    pub trans : (a b c : A) → less a b ≡ true → less b c ≡ true → less a c ≡ true

pub record StableSort {ℓ} (A : Type ℓ) : Type ℓ where
  pub sort : (A → A → Bool) → List A → List A
  pub sort-perm : (less : A → A → Bool) (xs : List A) → Perm (sort less xs) xs
  pub sort-IsSortedBy :
      (less : A → A → Bool) (xs : List A) → IsTotalOrder less → IsSortedBy less (sort less xs)

module _ {ℓ} {A : Type ℓ} (less : A → A → Bool) where
  abbrev insert_sorted : A → List A → List A
  insert_sorted x [] = x ∷ []
  insert_sorted x (y ∷ ys) = if less x y then x ∷ y ∷ ys else y ∷ insert_sorted x ys

  abbrev pub insertion_sort : List A → List A
  insertion_sort [] = []
  insertion_sort (x ∷ xs) = insert_sorted x (insertion_sort xs)

  insert_sorted-perm : (x : A) (ys : List A) → Perm (insert_sorted x ys) (x ∷ ys)
  insert_sorted-perm x [] = Perm.refl _
  insert_sorted-perm x (y ∷ ys) = elim (Bool-cases (less x y)) [
    | inl e ↦ rw e (Perm.refl _)
    | inr e ↦ rw e (Perm.trans (Perm.cons y (insert_sorted-perm x ys)) (Perm.swap x y ys))
  ]

  pub insertion_sort-perm : (xs : List A) → Perm (insertion_sort xs) xs
  insertion_sort-perm [] = Perm.refl _
  insertion_sort-perm (x ∷ xs) =
      Perm.trans (insert_sorted-perm x (insertion_sort xs)) (Perm.cons x (insertion_sort-perm xs))

  module _ (order : IsTotalOrder less) where
    All-trans :
        (x y : A) (ys : List A)
        → less x y ≡ true
        → All (λ z. less y z ≡ true) ys
        → All (λ z. less x z ≡ true) ys
    All-trans x y [] h p = tt
    All-trans x y (z ∷ ys) h p = (order.trans x y z h p.0, All-trans x y ys h p.1)

    All-insert_sorted :
        (w x : A) (ys : List A)
        → less w x ≡ true
        → All (λ z. less w z ≡ true) ys
        → All (λ z. less w z ≡ true) (insert_sorted x ys)
    All-insert_sorted w x [] h p = (h, tt)
    All-insert_sorted w x (y ∷ ys) h p = ground (arith, All-insert_sorted w x ys h p.1)

    insert_sorted-IsSortedBy :
        (x : A) (ys : List A) → IsSortedBy less ys → IsSortedBy less (insert_sorted x ys)
    insert_sorted-IsSortedBy x [] s = (tt, tt)
    insert_sorted-IsSortedBy x (y ∷ ys) s = ground (
      arith,
      insert_sorted-IsSortedBy x ys s.1,
      All-trans x y ys,
      All-insert_sorted y x ys,
      order.total x y,
    )

    pub insertion_sort-IsSortedBy : (xs : List A) → IsSortedBy less (insertion_sort xs)
    insertion_sort-IsSortedBy [] = tt
    insertion_sort-IsSortedBy (x ∷ xs) =
        insert_sorted-IsSortedBy x (insertion_sort xs) (insertion_sort-IsSortedBy xs)

abbrev pub by_insertion {ℓ} : {A : Type ℓ} → StableSort A
by_insertion = record {
  sort = insertion_sort;
  sort-perm = insertion_sort-perm;
  sort-IsSortedBy = λ less xs o. insertion_sort-IsSortedBy less o xs;
}
