-- ===== src/Provider/Query.antt =====
-- providers/base/api/handlers: the query handler and the REST fetcher of an API provider. The URL of a
-- request, the client that makes it and the parser of its response belong to an exchange and are arguments;
-- logs, metrics and latencies are left out.
pub mod Rounds
pub mod Failed
pub mod Tests
use orynx.Prelude.{
  ℕ, zero, suc, ◌+◌, ◌%◌, ◌≡◌, Bool, true, false, not, ◌&&◌, ◌||◌, List, [], ◌∷◌, ◌++◌, Option,
  none, some, Text, Result, ok, err, length, ltb, leb, if◌then◌else◌, ℕ_discrete, is_ok, fail_if,
  ◌>>◌, ite,
}
use orynx.Prelude.Int.{ℤ, pos, pos_part}
use orynx.BigMath.{min_from, max_from}
use orynx.Config.{ApiConfig, validate_api, is_nil}
use orynx.Provider.{GetResponse, new_get_response_with_err}
use orynx.Slices.{batches, threads}

pub data HandlerError : Type 0 where
  bad_config not_enabled no_logger no_metrics no_fetcher : HandlerError

-- `NewAPIQueryHandlerWithFetcher`, given which of its arguments are set.
unfoldable pub new_api_query_handler_with_fetcher :
    Bool → Bool → Bool → ApiConfig → Result HandlerError ApiConfig
new_api_query_handler_with_fetcher has_logger has_metrics has_fetcher cfg = do
  fail_if (not (is_ok (validate_api cfg))) bad_config
  fail_if (not cfg.enabled) not_enabled
  fail_if (not has_logger) no_logger
  fail_if (not has_metrics) no_metrics
  fail_if (not has_fetcher) no_fetcher
  ok cfg

-- What a turn of the main loop of `Query` receives: a tick, or that the context is done.
pub data QueryEvent : Type 0 where
  tick done : QueryEvent

-- `batchSize`
unfoldable pub query_batch_size : ApiConfig → ℕ
query_batch_size cfg = pos_part (max_from (pos 1) (cfg.batch_size ∷ []))

module _ {K : Type 0} where
  -- The IDs of each task of `Query`.
  unfoldable pub query_tasks : ApiConfig → List K → List (List K)
  query_tasks cfg ids = if cfg.atomic then ids ∷ [] else batches (query_batch_size cfg) ids

  -- The limit of a tick; a loop up to a limit that is not positive takes no turn.
  unfoldable pub query_limit : ApiConfig → List K → ℕ
  query_limit cfg ids =
      let limit = min_from cfg.max_queries (pos (length ids) ∷ []) in
      pos_part (
        if cfg.atomic
        then limit
        else min_from limit (pos (threads (query_batch_size cfg) ids) ∷ []))

  -- `tasks[i]`, `none` out of range.
  abbrev pub get_elem? : ℕ → List (List K) → Option (List K)
  get_elem? i [] = none
  get_elem? zero (t ∷ ts) = some t
  get_elem? (suc i) (t ∷ ts) = get_elem? i ts

  abbrev pub begin : Option (List K) → List (List K) → List (List K)
  begin none later = []
  begin (some t) later = t ∷ later

  -- The loop of a tick: `n` tasks from the index on, as the IDs of each. With no tasks its first turn
  -- panics, which ends `Query`.
  pub spin : ℕ → ℕ → List (List K) → List (List K)
  spin zero index tasks = []
  spin (suc n) index tasks =
      begin (get_elem? (index % length tasks) tasks) (spin n (index + 1) tasks)

  -- The main loop, with what it receives: the tasks that it starts, in order.
  pub main_loop : ℕ → ℕ → List (List K) → List QueryEvent → List (List K)
  main_loop limit index tasks [] = []
  main_loop limit index tasks (done ∷ events) = []
  main_loop limit index tasks (tick ∷ events) =
      spin limit index tasks ++ main_loop limit (index + limit) tasks events

  -- `Query`, as the tasks it starts.
  unfoldable pub query : ApiConfig → List K → List QueryEvent → List (List K)
  query cfg ids events =
      if is_nil ids then [] else main_loop (query_limit cfg ids) 0 (query_tasks cfg ids) events

-- The codes of providers/types/errors.go that a fetch sets.
abbrev pub error_rate_limit_exceeded : ℕ
error_rate_limit_exceeded = 1

abbrev pub error_unknown : ℕ
error_unknown = 2

abbrev pub error_unable_to_create_url : ℕ
error_unable_to_create_url = 4

-- The errors of providers/base/api/errors.
pub data FetchError : Type 0 where
  create_url_error do_request_error parse_response_error rate_limit_error : FetchError
  unexpected_status_code : ℕ → FetchError

-- `ErrorWithCode`
pub record ErrorWithCode : Type 0 where
  pub internal_err : FetchError
  pub code : ℕ

-- What the client returns: an error, with the status code of a response that came with it, or a response
-- with its status code and body.
pub data Answer : Type 0 where
  refused : Option ℕ → Answer
  answered : ℕ → Text → Answer

-- The code of a failed request.
unfoldable pub status_of : Option ℕ → ℕ
status_of none = error_unknown
status_of (some status) = status

module _ {K V : Type 0} (eq? : Discrete K) where
  -- `NewGetResponseWithErr` of `NewErrorWithCode`
  abbrev pub failed : List K → FetchError → ℕ → GetResponse K V ErrorWithCode
  failed ids e code = new_get_response_with_err eq? ids (record { internal_err = e; code = code })

  module _ (parse_response : List K → ℕ → Text → GetResponse K V ErrorWithCode) where
    -- `Fetch` once the request is made.
    unfoldable pub handle_answer : List K → Answer → GetResponse K V ErrorWithCode
    handle_answer ids (refused status) = failed ids do_request_error (status_of status)
    handle_answer ids (answered status body) =
        ite (ℕ_discrete status 429) (failed ids rate_limit_error error_rate_limit_exceeded) (
          if ltb status 200 || leb 300 status
          then failed ids (unexpected_status_code status) status
          else parse_response ids status body)

    -- `Fetch` once the URL is made, if it could be.
    unfoldable pub send : (Text → Answer) → List K → Option Text → GetResponse K V ErrorWithCode
    send do_request ids none = failed ids create_url_error error_unable_to_create_url
    send do_request ids (some url) = handle_answer ids (do_request url)

    -- `Fetch`
    abbrev pub fetch :
        (List K → Option Text) → (Text → Answer) → List K → GetResponse K V ErrorWithCode
    fetch create_url do_request ids = send do_request ids (create_url ids)

  -- `subTask` with `writeResponse`: the response goes to the channel unless the context is done by then.
  unfoldable pub sub_task :
      (List K → GetResponse K V ErrorWithCode)
      → Bool
      → List K
      → List (GetResponse K V ErrorWithCode)
  sub_task answer is_done ids = if is_done then [] else answer ids ∷ []
