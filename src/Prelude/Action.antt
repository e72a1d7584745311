-- ===== src/Prelude/Action.antt =====
-- A method that reads and writes a state and may fail. What was written before a failure stays
-- written, as in the Go code.
use orynx.Prelude.Outcome.{Result, ok, err}
use mathlib.Core.Path.{◌≡◌, refl}
use native.Mathlib.Omega.{arith}
use mathlib.Core.Bool.{Bool, true, false}
use mathlib.Core.Option.{Option, none, some}

abbrev pub Action : Type 0 → Type 0 → Type 0 → Type 0
Action S E A = S → Result E A × S

module _ {S E : Type 0} where
  infixl 5 ◌>>=◌ ◌>>◌
  abbrev pub ◌>>=◌ : {A B : Type 0} → Action S E A → (A → Action S E B) → Action S E B
  ◌>>=◌ m f s = let (r, s') = m s in elim r [ ok a ↦ f a s' | err e ↦ (err e, s') ]

  abbrev pub ◌>>◌ : {B : Type 0} → Action S E (Unit {0}) → Action S E B → Action S E B
  m >> k = m >>= λ _. k

  abbrev pub pure : {A : Type 0} → A → Action S E A
  pure a s = (ok a, s)

  abbrev pub raise : {A : Type 0} → E → Action S E A
  raise e s = (err e, s)

  abbrev pub gets : {A : Type 0} → (S → A) → Action S E A
  gets f s = (ok (f s), s)

  abbrev pub modify : (S → S) → Action S E (Unit {0})
  modify f s = (ok tt, f s)

  abbrev pub raise_if : Bool → E → Action S E (Unit {0})
  raise_if true e = raise e
  raise_if false e = pure tt

  abbrev pub or_raise : {A : Type 0} → Option A → E → Action S E A
  or_raise none e = raise e
  or_raise (some a) e = pure a

  abbrev pub lift : {A : Type 0} → Result E A → Action S E A
  lift (ok a) = pure a
  lift (err e) = raise e

  -- The errors of a callee as errors of the caller.
  abbrev pub map_error : {F A : Type 0} → (F → E) → Action S F A → Action S E A
  map_error f m s = let (r, s') = m s in elim r [ ok a ↦ (ok a, s') | err e ↦ (err (f e), s') ]

  -- A step whose error is logged and dropped.
  abbrev pub attempt : {F A : Type 0} → Action S F A → Action S E (Option A)
  attempt m s = let (r, s') = m s in elim r [ ok a ↦ (ok (some a), s') | err e ↦ (ok none, s') ]

  -- A chain that succeeds has succeeded at its first step.
  pub bind_ok :
      {A B : Type 0} (m : Action S E A) (f : A → Action S E B) (s s' : S) {b : B}
      → (m >>= f) s ≡ (ok b, s')
      → (a : A) × (s1 : S) × (m s ≡ (ok a, s1)) × (f a s1 ≡ (ok b, s'))
  bind_ok {A = A} m f s s' {b} e = step (m s) refl
    where
      step :
          (r : Result E A × S)
          → m s ≡ r
          → (a : A) × (s1 : S) × (m s ≡ (ok a, s1)) × (f a s1 ≡ (ok b, s'))
      step (ok a, s1) p = (a, s1, p, ground arith)
      step (err x, s1) p = absurd ground arith
