-- ===== src/Provider/Query/Rounds.antt =====
-- What an API provider asks for: the tasks of a query handler go round.
use native.Mathlib.Nat.{
  mod-lt, mod-eq_of_lt, mul-add-mod_self_left, zero-add, suc-add, add-zero, mul-zero,
}
use mathlib.Core.List.{append-nil}
use orynx.Prelude.{
  ℕ, zero, suc, ◌+◌, ◌-◌, ◌*◌, ◌%◌, ◌≤◌, ◌<◌, ◌≡◌, refl, sym, ap, ◌∙◌, Bool, false, List, [], ◌∷◌,
  ◌++◌, some, ok, length, arith, inl, inr, Bool-cases,
}
use orynx.Prelude.Int.{pos_part}
use orynx.Config.{ApiConfig, validate_api, validate_enabled_api, below_one, is_nil}
use orynx.BigMath.{min_from, max_from}
use orynx.Slices.{take, drop, slice, batches, threads}
use orynx.Slices.Cover.{concat, batches-IsCover, length-batches}
use orynx.Provider.Query.{
  QueryEvent, tick, done, get_elem?, spin, main_loop, query, query_tasks, query_limit,
  query_batch_size, new_api_query_handler_with_fetcher,
}

-- The ticks before the context is done.
unfoldable pub ticks : List QueryEvent → ℕ
ticks [] = 0
ticks (done ∷ events) = 0
ticks (tick ∷ events) = suc (ticks events)

batch-IsPositive : (cfg : ApiConfig) → 0 < query_batch_size cfg
unfolding query_batch_size max_from
batch-IsPositive cfg = ground arith

module _ {K : Type 0} where
  not_nil : (ids : List K) → 0 < length ids → is_nil ids ≡ false
  not_nil ids h = ground arith

  get_elem?_within :
      (i : ℕ) (ts : List (List K))
      → i < length ts
      → (t : List K) × (get_elem? i ts ≡ some t)
        × ((k : ℕ) → take (suc k) (drop i ts) ≡ t ∷ take k (drop (suc i) ts))
  get_elem?_within i [] h = absurd (omega arith)
  get_elem?_within zero (t ∷ ts) h = (t, refl, λ k. refl)
  get_elem?_within (suc i) (t ∷ ts) h = get_elem?_within i ts (omega arith)

  task_of :
      (index : ℕ) (ts : List (List K))
      → 0 < length ts
      → (t : List K) × (get_elem? (index % length ts) ts ≡ some t)
  task_of index ts h =
      let (t, e, r) = get_elem?_within (index % length ts) ts (mod-lt index h) in (t, e)

  -- The tasks of a later index are those that are left when the earlier ones are dropped.
  drop-spin :
      (n k index : ℕ) (ts : List (List K))
      → 0 < length ts
      → drop n (spin (n + k) index ts) ≡ spin k (index + n) ts
  unfolding spin
  drop-spin zero k index ts h = rw (zero-add k, add-zero index) refl
  drop-spin (suc n) k index ts h =
      let (t, e) = task_of index ts h in
      let again = drop-spin n k (index + 1) ts h in
      let at : index + 1 + n ≡ index + suc n = omega arith in
      rw (suc-add n k, e) (again ∙ ap (λ i. spin k i ts) at)

  take-spin :
      (n k index : ℕ) (ts : List (List K))
      → 0 < length ts
      → take n (spin (n + k) index ts) ≡ spin n index ts
  unfolding spin
  take-spin zero k index ts h = refl
  take-spin (suc n) k index ts h =
      let (t, e) = task_of index ts h in
      let again = take-spin n k (index + 1) ts h in rw (suc-add n k, e) (ap (λ us. t ∷ us) again)

  spin-append :
      (n k index : ℕ) (ts : List (List K))
      → 0 < length ts
      → spin n index ts ++ spin k (index + n) ts ≡ spin (n + k) index ts
  unfolding spin
  spin-append zero k index ts h = rw (zero-add k, add-zero index) refl
  spin-append (suc n) k index ts h =
      let (t, e) = task_of index ts h in
      let again = spin-append n k (index + 1) ts h in
      let at : index + suc n ≡ index + 1 + n = omega arith in
      rw (suc-add n k, e, at) (ap (λ us. t ∷ us) again)

  main_loop-spin :
      (limit index : ℕ) (ts : List (List K)) (events : List QueryEvent)
      → 0 < length ts
      → main_loop limit index ts events ≡ spin (limit * ticks events) index ts
  unfolding main_loop spin ticks
  main_loop-spin limit index ts [] h = rw (mul-zero limit) refl
  main_loop-spin limit index ts (done ∷ events) h = rw (mul-zero limit) refl
  main_loop-spin limit index ts (tick ∷ events) h =
      let rest = main_loop-spin limit (index + limit) ts events h in
      let all = spin-append limit (limit * ticks events) index ts h in
      let sum : limit + limit * ticks events ≡ limit * suc (ticks events) = grind arith in
      ap (λ us. spin limit index ts ++ us) rest ∙ all ∙ ap (λ n. spin n index ts) sum

  take_all : (ts : List (List K)) → take (length ts) ts ≡ ts
  take_all [] = refl
  take_all (t ∷ ts) = ap (λ us. t ∷ us) (take_all ts)

  -- Within a round, the tasks come in their order.
  spin_part :
      (r k i : ℕ) (ts : List (List K))
      → i + k ≤ length ts
      → spin k (length ts * r + i) ts ≡ take k (drop i ts)
  unfolding spin
  spin_part r zero i ts h = refl
  spin_part r (suc k) i ts h =
      let (t, e, next) = get_elem?_within i ts (omega arith) in
      let at : (length ts * r + i) % length ts ≡ i =
        mul-add-mod_self_left (length ts) r i ∙ mod-eq_of_lt (omega arith) in
      let rest = spin_part r k (suc i) ts (omega arith) in
      let later : length ts * r + i + 1 ≡ length ts * r + suc i = omega arith in
      rw (at, e, later, rest) (sym (next k))

  length-concat : (ts : List (List K)) → 0 < length (concat ts) → 0 < length ts
  unfolding concat
  length-concat [] h = h
  length-concat (t ∷ ts) h = omega arith

  -- Together the tasks are the IDs in their order.
  concat-query_tasks : (cfg : ApiConfig) (ids : List K) → concat (query_tasks cfg ids) ≡ ids
  unfolding query_tasks concat
  concat-query_tasks cfg ids =
      let cover = (batches-IsCover (query_batch_size cfg) ids (batch-IsPositive cfg)).0 in
      elim (Bool-cases cfg.atomic) [
        | inl atomic ↦ simp atomic (append-nil ids)
        | inr single ↦ simp single cover
      ]

  has_tasks : (cfg : ApiConfig) (ids : List K) → 0 < length ids → 0 < length (query_tasks cfg ids)
  has_tasks cfg ids h = length-concat (query_tasks cfg ids) (rw (concat-query_tasks cfg ids) h)

  threads-IsPositive : (size : ℕ) (ids : List K) → 0 < size → 0 < length ids → 0 < threads size ids
  threads-IsPositive size ids h k =
      let some = length-concat (batches size ids) (rw (batches-IsCover size ids h).0 k) in
      rw (length-batches size ids) at some

  query_limit-IsPositive :
      (logger metrics fetcher : Bool) (cfg : ApiConfig) (ids : List K)
      → new_api_query_handler_with_fetcher logger metrics fetcher cfg ≡ ok cfg
      → 0 < length ids
      → 0 < query_limit cfg ids
  unfolding query_limit new_api_query_handler_with_fetcher validate_api validate_enabled_api
      below_one min_from
  query_limit-IsPositive logger metrics fetcher cfg ids made h =
      let max : 0 < pos_part cfg.max_queries = ground arith in
      let many = threads-IsPositive (query_batch_size cfg) ids (batch-IsPositive cfg) h in
      ground (arith, many)

  -- For an API query handler that its constructor accepts, and IDs: each tick starts tasks, and as soon as
  -- the ticks have started enough tasks for `r + 1` rounds, the tasks of the `r`-th round, counted from
  -- zero, are all the tasks of the query in their order, which together are the IDs in their order, each
  -- once.
  pub query_rounds :
      (logger metrics fetcher : Bool) (cfg : ApiConfig) (ids : List K) (events : List QueryEvent)
      (r : ℕ)
      → new_api_query_handler_with_fetcher logger metrics fetcher cfg ≡ ok cfg
      → 0 < length ids
      → length (query_tasks cfg ids) * (r + 1) ≤ query_limit cfg ids * ticks events
      → (0 < query_limit cfg ids)
        × (slice
              (length (query_tasks cfg ids) * r)
              (length (query_tasks cfg ids) * (r + 1))
              (query cfg ids events)
            ≡ query_tasks cfg ids)
        × (concat (query_tasks cfg ids) ≡ ids)
  unfolding query
  query_rounds logger metrics fetcher cfg ids events r made h enough =
      let ts = query_tasks cfg ids in
      let n = length ts in
      let some = has_tasks cfg ids h in
      let k = query_limit cfg ids * ticks events in
      let loop : query cfg ids events ≡ spin k 0 ts =
        simp (not_nil ids h) (main_loop-spin (query_limit cfg ids) 0 ts events some) in
      let past : k ≡ n * r + (n + (k - n * (r + 1))) = grind arith in
      let one : n * (r + 1) - n * r ≡ n = grind arith in
      let later = k - n * (r + 1) in
      let at : 0 + n * r ≡ n * r + 0 = omega arith in
      let round =
        ap (λ us. take n (drop (n * r) us)) (loop ∙ ap (λ j. spin j 0 ts) past)
        ∙ ap (take n) (drop-spin (n * r) (n + later) 0 ts some)
        ∙ take-spin n later (0 + n * r) ts some
        ∙ ap (λ i. spin n i ts) at
        ∙ spin_part r n 0 ts (omega arith)
        ∙ take_all ts in
      (
        query_limit-IsPositive logger metrics fetcher cfg ids made h,
        ap (λ j. take j (drop (n * r) (query cfg ids events))) one ∙ round,
        concat-query_tasks cfg ids,
      )
