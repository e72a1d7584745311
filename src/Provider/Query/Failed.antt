-- ===== src/Provider/Query/Failed.antt =====
-- What a fetch of an API provider means for the IDs it asked for and for the provider's data.
use orynx.Prelude.{
  ℕ, ◌≤◌, ◌<◌, ◌≡◌, refl, ap, ◌∙◌, ◌⊎◌, inl, inr, Bool-cases, List, [], ◌∷◌, Option, some, Text,
  arith, All, if_pos, if_neg, All-mono, Option-cases, ◌||◌, ltb, leb, ℕ_discrete,
}
use orynx.Prelude.Dict.{Dict, get, put, get-put}
use orynx.Provider.{Provider, GetResponse, all_failed, new_get_response_with_err, recv, update_all}
use orynx.Provider.Query.{
  Answer, refused, answered, ErrorWithCode, create_url_error, unexpected_status_code,
  error_unable_to_create_url, FetchError, failed, fetch, send, handle_answer,
}

module _ {K : Type 0} (eq? : Discrete K) where
  all_failed_kept :
      (ids : List K) (e : ErrorWithCode) (m : Dict K ErrorWithCode) (id : K)
      → get eq? id m ≡ some e
      → get eq? id (all_failed eq? ids e m) ≡ some e
  unfolding all_failed
  all_failed_kept [] e m id h = h
  all_failed_kept (i ∷ ids) e m id h =
      all_failed_kept ids e (put eq? i e m) id (ground (arith, get-put eq? id i e m))

  all_failed_lem :
      (ids : List K) (e : ErrorWithCode) (m : Dict K ErrorWithCode)
      → All (λ id. get eq? id (all_failed eq? ids e m) ≡ some e) ids
  unfolding all_failed
  all_failed_lem [] e m = tt
  all_failed_lem (id ∷ ids) e m = (
    all_failed_kept ids e (put eq? id e m) id (ground (arith, get-put eq? id id e m)),
    all_failed_lem ids e (put eq? id e m),
  )

module _ {K V : Type 0} (eq? : Discrete K) where
  -- No ID is resolved and all are unresolved, so a provider that receives the response keeps its data.
  abbrev pub IsFailed : List K → GetResponse K V ErrorWithCode → Type 0
  IsFailed ids r =
      (r.resolved ≡ [])
      × All (λ id. (e : ErrorWithCode) × (get eq? id r.un_resolved ≡ some e)) ids
      × ((p : Provider K V) → recv eq? r p ≡ p)

  failed-IsFailed :
      (ids : List K) (e : FetchError) (code : ℕ) → IsFailed ids (failed eq? ids e code)
  unfolding new_get_response_with_err recv update_all
  failed-IsFailed ids e code = (
    refl,
    All-mono ids (λ id h. (record { internal_err = e; code = code }, h))
        (all_failed_lem eq? ids (record { internal_err = e; code = code }) []),
    λ p. refl,
  )

  failed_lem :
      (ids : List K) (e : FetchError) (code : ℕ) (r : GetResponse K V ErrorWithCode)
      → r ≡ failed eq? ids e code
      → IsFailed ids r
  failed_lem ids e code r h = rw h (failed-IsFailed ids e code)

  module _ (create_url : List K → Option Text) (do_request : Text → Answer)
      (parse_response : List K → ℕ → Text → GetResponse K V ErrorWithCode) where
    -- The exchange has answered the request with a status from 200 to 299, and the response is the
    -- parser's.
    abbrev pub IsParsed : List K → GetResponse K V ErrorWithCode → Type 0
    IsParsed ids r =
        (url : Text) × (status : ℕ) × (body : Text) × (create_url ids ≡ some url)
        × (do_request url ≡ answered status body)
        × (200 ≤ status)
        × (status < 300)
        × (r ≡ parse_response ids status body)

    handle_answer_lem :
        (ids : List K) (url : Text)
        → create_url ids ≡ some url
        → (answer : Answer) → do_request url ≡ answer
        → let r = handle_answer eq? parse_response ids answer in IsParsed ids r ⊎ IsFailed ids r
    unfolding handle_answer
    handle_answer_lem ids url h (refused status) g = inr (failed-IsFailed ids _ _)
    handle_answer_lem ids url h (answered status body) g = elim (ℕ_discrete status 429) [
      | yes limited ↦ inr (failed_lem ids _ _ _ (if_pos (ℕ_discrete status 429) limited _ _))
      | no other ↦ elim (Bool-cases (ltb status 200 || leb 300 status)) [
        | inl outside ↦ inr (
            failed_lem ids (unexpected_status_code status) status _
              (if_neg (ℕ_discrete status 429) other _ _ ∙ simp outside refl))
        | inr within ↦ inl (
          url,
          status,
          body,
          h,
          g,
          ground arith,
          ground arith,
          if_neg (ℕ_discrete status 429) other _ _ ∙ simp within refl,
        )
      ]
    ]

    -- A fetch has a URL for its IDs, an answer to it with a status from 200 to 299, and the parser's
    -- response to that; or its response resolves no ID and has an error for every ID that was asked for,
    -- and a provider that receives it keeps its data.
    pub fetch_lem :
        (ids : List K)
        → let r = fetch eq? parse_response create_url do_request ids in
          IsParsed ids r ⊎ IsFailed ids r
    unfolding send
    fetch_lem ids = elim (Option-cases (create_url ids)) [
      | inl missing ↦ inr (
          failed_lem ids create_url_error error_unable_to_create_url
            (fetch eq? parse_response create_url do_request ids)
            (ap (send eq? parse_response do_request ids) missing))
      | inr (url, e) ↦
          let same = ap (send eq? parse_response do_request ids) e in
          rw same (handle_answer_lem ids url e (do_request url) refl)
    ]
