-- ===== src/Provider/Latest.antt =====
-- What a provider of providers/base holds after any number of responses.
use orynx.Prelude.{
  ℕ, ◌≤◌, ◌≡◌, refl, sym, ◌∙◌, ◌⊎◌, inl, inr, List, [], ◌∷◌, Option, none, some, arith,
  Option-cases, All,
}
use orynx.Prelude.Dict.{Dict, get, get-put}
use orynx.Provider.{ResolvedResult, code_ok, merge_result, update_data, update_all}

module _ {K V : Type 0} (eq? : Discrete K) where
  -- A result for the key with this value has come, with a value of its own, by the time `t`.
  pub data HasCome (id : K) (v : V) (t : ℕ) : List (K × ResolvedResult V) → Type 0 where
    here :
        (key : K) (r : ResolvedResult V) {rest : List (K × ResolvedResult V)}
        → key ≡ id
        → r.value ≡ v
        → r.response_code ≡ code_ok
        → r.timestamp ≤ t
        → HasCome id v t ((key, r) ∷ rest)
    there :
        (e : K × ResolvedResult V) {rest : List (K × ResolvedResult V)}
        → HasCome id v t rest
        → HasCome id v t (e ∷ rest)

  -- The entry of a key after one result for it.
  abbrev merged : Option (ResolvedResult V) → ResolvedResult V → Option (ResolvedResult V)
  merged old r = elim (merge_result eq? old r) [ none ↦ old | some n ↦ some n ]

  get-update_same :
      (id : K) (r : ResolvedResult V) (held : Dict K (ResolvedResult V))
      → get eq? id (update_data eq? id r held) ≡ merged (get eq? id held) r
  unfolding update_data
  get-update_same id r held = elim (Option-cases (merge_result eq? (get eq? id held) r)) [
    | inl n ↦ ground arith
    | inr (new, p) ↦ ground (arith, get-put eq? id id new held)
  ]

  get-update_other :
      (id key : K) (r : ResolvedResult V) (held : Dict K (ResolvedResult V))
      → ¬ (id ≡ key)
      → get eq? id (update_data eq? key r held) ≡ get eq? id held
  unfolding update_data
  get-update_other id key r held n = elim (Option-cases (merge_result eq? (get eq? key held) r)) [
    | inl m ↦ ground arith
    | inr (new, p) ↦ ground (arith, get-put eq? id key new held)
  ]

  -- An entry that is no older than the time.
  abbrev pub IsSince : ℕ → Option (ResolvedResult V) → Type 0
  IsSince t none = ⊥
  IsSince t (some r) = t ≤ r.timestamp

  -- An entry that an earlier one or a result has given its value.
  abbrev pub IsFrom : Option (ResolvedResult V) → ResolvedResult V → Type 0
  IsFrom none new = ⊥
  IsFrom (some r) new = (r.value ≡ new.value) × (r.timestamp ≤ new.timestamp)

  merged-IsSince_old :
      (old : Option (ResolvedResult V)) (r : ResolvedResult V) (t : ℕ)
      → IsSince t old
      → IsSince t (merged old r)
  unfolding merge_result
  merged-IsSince_old none r t h = absurd h
  merged-IsSince_old (some cur) r t h = ground arith

  merged-IsSince_new :
      (old : Option (ResolvedResult V)) (r : ResolvedResult V)
      → r.response_code ≡ code_ok
      → IsSince r.timestamp (merged old r)
  unfolding merge_result
  merged-IsSince_new none r h = ground arith
  merged-IsSince_new (some cur) r h = ground arith

  merged-IsFrom :
      (old : Option (ResolvedResult V)) (r new : ResolvedResult V)
      → merged old r ≡ some new
      → (IsFrom (some r) new × (r.response_code ≡ code_ok)) ⊎ IsFrom old new
  unfolding merge_result
  merged-IsFrom none r new e = ground arith
  merged-IsFrom (some cur) r new e = ground arith

  update_data-IsSince :
      (id key : K) (r : ResolvedResult V) (held : Dict K (ResolvedResult V)) (t : ℕ)
      → IsSince t (get eq? id held)
      → IsSince t (get eq? id (update_data eq? key r held))
  update_data-IsSince id key r held t h = elim (eq? id key) [
    | yes p ↦ rw (← p) (rw (get-update_same id r held) (merged-IsSince_old (get eq? id held) r t h))
    | no n ↦ rw (get-update_other id key r held n) h
  ]

  update_data-IsFrom :
      (id key : K) (r new : ResolvedResult V) (held : Dict K (ResolvedResult V))
      → get eq? id (update_data eq? key r held) ≡ some new
      → ((key ≡ id) × IsFrom (some r) new × (r.response_code ≡ code_ok))
        ⊎ IsFrom (get eq? id held) new
  update_data-IsFrom id key r new held e = elim (eq? id key) [
    | yes p ↦
        elim (merged-IsFrom (get eq? id held) r new
          (sym (get-update_same id r held) ∙ (rw (← p) at e))) [
            | inl (f, c) ↦ inl (sym p, f, c)
            | inr f ↦ inr f
          ]
    | no n ↦ elim (Option-cases (get eq? id held)) [
      | inl z ↦ absurd (ground (arith, get-update_other id key r held n))
      | inr (cur, z) ↦ inr (rw z (ground (arith, get-update_other id key r held n)))
    ]
  ]

  -- The entry under a key is never replaced by an older one.
  pub update_all-IsSince :
      (id : K) (results held : Dict K (ResolvedResult V)) (t : ℕ)
      → IsSince t (get eq? id held)
      → IsSince t (get eq? id (update_all eq? results held))
  unfolding update_all
  update_all-IsSince id [] held t h = h
  update_all-IsSince id ((key, r) ∷ results) held t h =
      update_all-IsSince id results (update_data eq? key r held) t
        (update_data-IsSince id key r held t h)

  results-AreKept :
      (id : K) (results held : Dict K (ResolvedResult V))
      → All
          (λ (e : K × ResolvedResult V).
            e.0 ≡ id
            → e.1.response_code ≡ code_ok
            → IsSince e.1.timestamp (get eq? id (update_all eq? results held)))
          results
  unfolding update_all
  results-AreKept id [] held = tt
  results-AreKept id ((key, r) ∷ results) held = (
    λ p c.
        update_all-IsSince id results (update_data eq? key r held) r.timestamp
          (rw p (rw (get-update_same id r held) (merged-IsSince_new (get eq? id held) r c))),
    results-AreKept id results (update_data eq? key r held),
  )

  IsFrom-trans :
      (old : Option (ResolvedResult V)) (m new : ResolvedResult V)
      → IsFrom old m
      → m.value ≡ new.value
      → m.timestamp ≤ new.timestamp
      → IsFrom old new
  IsFrom-trans none m new f e t = f
  IsFrom-trans (some r) m new f e t = (f.0 ∙ e, omega arith)

  values-HaveCome :
      (id : K) (results held : Dict K (ResolvedResult V)) (new : ResolvedResult V)
      → get eq? id (update_all eq? results held) ≡ some new
      → HasCome id new.value new.timestamp results ⊎ IsFrom (get eq? id held) new
  unfolding update_all
  values-HaveCome id [] held new e = inr (rw e (refl, omega arith))
  values-HaveCome id ((key, r) ∷ results) held new e =
      elim (values-HaveCome id results (update_data eq? key r held) new e) [
        | inl c ↦ inl (there (key, r) c)
        | inr f ↦ elim (Option-cases (get eq? id (update_data eq? key r held))) [
          | inl n ↦ absurd (rw n at f)
          | inr (m, p) ↦
              let (same, later) = rw p at f in
              elim (update_data-IsFrom id key r m held p) [
                | inl (k, (v, t), c) ↦ inl (here key r k (v ∙ same) c (omega arith))
                | inr g ↦ inr (IsFrom-trans (get eq? id held) m new g same later)
              ]
        ]
      ]

  -- However many results come in, and in whatever order: the entry of a key is no older than the entry
  -- before, nor than any result for the key that had a value; and the entry's value is that of such a
  -- result, or of the entry before, with a time that is no earlier than that one's.
  pub update_all-IsLatest :
      (id : K) (results held : Dict K (ResolvedResult V))
      → let after = get eq? id (update_all eq? results held) in
        ((t : ℕ) → IsSince t (get eq? id held) → IsSince t after)
        × All
            (λ (e : K × ResolvedResult V).
              e.0 ≡ id → e.1.response_code ≡ code_ok → IsSince e.1.timestamp after)
            results
        × ((new : ResolvedResult V)
            → after ≡ some new
            → HasCome id new.value new.timestamp results ⊎ IsFrom (get eq? id held) new)
  update_all-IsLatest id results held = (
    update_all-IsSince id results held,
    results-AreKept id results held,
    values-HaveCome id results held,
  )
