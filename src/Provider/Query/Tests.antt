-- ===== src/Provider/Query/Tests.antt =====
-- Runs of the query handler of an API.
use orynx.Prelude.{
  ℕ, ◌*◌, ◌<◌, ◌≡◌, ◌⊎◌, refl, true, false, List, [], ◌∷◌, some, Text, length, codes, arith,
  ℕ_discrete,
}
use orynx.Prelude.Int.{pos}
use orynx.Config.{ApiConfig, Endpoint, validate_api, validate_enabled_api}
use orynx.Config
use orynx.BigMath.{min_from, max_from}
use orynx.Slices.{slice, batches, batches_from}
use orynx.Slices.Cover.{concat}
use orynx.Provider.{GetResponse}
use orynx.Provider.Query.{
  QueryEvent, tick, done, query, query_tasks, query_limit, query_batch_size, main_loop, spin,
  new_api_query_handler_with_fetcher, Answer, answered, fetch, ErrorWithCode,
}
use orynx.Provider.Query.Rounds.{query_rounds, ticks}
use orynx.Provider.Query.Failed.{IsParsed, IsFailed, fetch_lem}

abbrev endpoint : Endpoint
endpoint = record { url = codes "u"; authentication = record { api_key = []; api_key_header = [] } }

-- Batches of two IDs, two for each tick.
abbrev cfg : ApiConfig
cfg = record {
  enabled = true;
  timeout = pos 1;
  interval = pos 1;
  reconnect_timeout = pos 1;
  max_queries = pos 2;
  atomic = false;
  endpoints = endpoint ∷ [];
  batch_size = pos 2;
  name = codes "api";
  max_block_height_age = pos 0;
}

abbrev five : List ℕ
five = 1 ∷ 2 ∷ 3 ∷ 4 ∷ 5 ∷ []

abbrev events : List QueryEvent
events = tick ∷ tick ∷ tick ∷ done ∷ tick ∷ []

five_queried :
    query cfg five events
    ≡ (1 ∷ 2 ∷ []) ∷ (3 ∷ 4 ∷ []) ∷ (5 ∷ []) ∷ (1 ∷ 2 ∷ []) ∷ (3 ∷ 4 ∷ []) ∷ (5 ∷ []) ∷ []
unfolding query query_tasks query_limit query_batch_size main_loop spin batches batches_from
    min_from max_from
five_queried = refl

-- The second round of requests, after the first three.
query_rounds_example :
    (0 < query_limit cfg five)
    × (slice
          (length (query_tasks cfg five) * 1)
          (length (query_tasks cfg five) * 2)
          (query cfg five events)
        ≡ query_tasks cfg five)
    × (concat (query_tasks cfg five) ≡ five)
unfolding query_tasks query_limit query_batch_size batches batches_from ticks
    new_api_query_handler_with_fetcher validate_api validate_enabled_api Config.validate_endpoint
    Config.validate_authentication min_from max_from Config.below_one Config.not_positive
    Config.negative
query_rounds_example =
    query_rounds true true true cfg five events 1 refl (omega arith) (omega arith)

-- An exchange that limits the rate.
abbrev limited : Text → Answer
limited url = answered 429 []

abbrev no_prices : List ℕ → ℕ → Text → GetResponse ℕ ℕ ErrorWithCode
no_prices ids status body = record { resolved = []; un_resolved = [] }

fetch_lem_example :
    let r = fetch ℕ_discrete no_prices (λ ids. some (codes "u")) limited five in
    IsParsed ℕ_discrete (λ ids. some (codes "u")) limited no_prices five r
    ⊎ IsFailed ℕ_discrete five r
fetch_lem_example = fetch_lem ℕ_discrete (λ ids. some (codes "u")) limited no_prices five
