-- ===== src/Provider/Tests.antt =====
-- Runs of providers/base on a few results.
use orynx.Prelude.{ℕ, ◌≡◌, ◌⊎◌, refl, [], ◌∷◌, some, All, ℕ_discrete}
use orynx.Prelude.Dict.{Dict, get, put}
use orynx.Provider.{ResolvedResult, code_ok, code_unchanged, update_all, update_data, merge_result}
use orynx.Provider.Latest.{HasCome, IsSince, IsFrom, update_all-IsLatest}

abbrev result : ℕ → ℕ → ResolvedResult ℕ
result v t = record { value = v; timestamp = t; response_code = code_ok }

abbrev unchanged : ℕ → ResolvedResult ℕ
unchanged t = record { value = 0; timestamp = t; response_code = code_unchanged }

-- An update, a late result, a heartbeat, and a heartbeat for a key with no value.
abbrev results : Dict ℕ (ResolvedResult ℕ)
results = (1, result 5 10) ∷ (1, result 6 8) ∷ (1, unchanged 12) ∷ (2, unchanged 9) ∷ []

results_merged : update_all ℕ_discrete results [] ≡ (1, result 5 12) ∷ []
unfolding update_all update_data merge_result get put ℕ_discrete
results_merged = refl

update_all-IsLatest_example :
    let after = get ℕ_discrete 1 (update_all ℕ_discrete results []) in
    ((t : ℕ)
      → IsSince {V = ℕ} ℕ_discrete t (get {V = ResolvedResult ℕ} ℕ_discrete 1 [])
      → IsSince ℕ_discrete t after)
    × All
        (λ (e : ℕ × ResolvedResult ℕ).
          e.0 ≡ 1 → e.1.response_code ≡ code_ok → IsSince ℕ_discrete e.1.timestamp after)
        results
    × ((new : ResolvedResult ℕ)
        → after ≡ some new
        → HasCome ℕ_discrete 1 new.value new.timestamp results
          ⊎ IsFrom {V = ℕ} ℕ_discrete (get {V = ResolvedResult ℕ} ℕ_discrete 1 []) new)
update_all-IsLatest_example = update_all-IsLatest ℕ_discrete 1 results []
