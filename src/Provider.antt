-- ===== src/Provider.antt =====
-- providers/types/response.go, and providers/base: provider.go, fetch.go, utils.go, config.go and
-- options.go. Of the contexts and goroutines of a provider the state keeps whether its main and its
-- fetch context have been set and are still live; times are nanoseconds. Logs and metrics are left out.
pub mod Latest
pub mod Query
pub mod WebSocket
pub mod Tests
use orynx.Prelude.{
  ℕ, ◌≡◌, Bool, true, false, not, ◌&&◌, List, [], ◌∷◌, ◌++◌, Option, none, some, Text, Result, ok,
  err, ◌>>=◌, ◌>>◌, fail_if, wrap_err, length, ltb, if◌then◌else◌, is_ok,
}
use orynx.Prelude.Dict.{Dict, get, put}
use orynx.Prelude.Action.{Action}
use orynx.Prelude.Int.{pos_part}
use orynx.Config.{
  ApiConfig, WebSocketConfig, ConfigError, validate_api, validate_web_socket, is_nil,
}

-- `ResponseCodeOK` and `ResponseCodeUnchanged`.
pub data ResponseCode : Type 0 where
  code_ok code_unchanged : ResponseCode

pub record ResolvedResult (V : Type 0) : Type 0 where
  pub value : V
  pub timestamp : ℕ
  pub response_code : ResponseCode

-- `GetResponse`, where `E` is the type of errors with a code.
pub record GetResponse (K V E : Type 0) : Type 0 where
  pub resolved : Dict K (ResolvedResult V)
  pub un_resolved : Dict K E

-- `Provider.Type`
pub data ProviderType : Type 0 where
  api web_sockets unknown : ProviderType

-- What of a provider its owner and its loops read and write. `main_ctx` and `fetch_ctx` are `none` before
-- they are set, and tell whether they are live.
pub record Provider (K V : Type 0) : Type 0 where
  pub name : Text
  pub api_cfg : ApiConfig
  pub ws_cfg : WebSocketConfig
  pub ids : List K
  pub provider_data : Dict K (ResolvedResult V)
  pub main_ctx : Option Bool
  pub fetch_ctx : Option Bool

pub data ProviderError : Type 0 where
  both_handlers no_handler bad_api_config bad_web_socket_config not_configured : ProviderError

module _ {V : Type 0} where
  -- `NewResult`
  abbrev pub new_result : V → ℕ → ResolvedResult V
  new_result v t = record { value = v; timestamp = t; response_code = code_ok }

  -- `NewResultWithCode`
  abbrev pub new_result_with_code : V → ℕ → ResponseCode → ResolvedResult V
  new_result_with_code v t code = record { value = v; timestamp = t; response_code = code }

-- A cancelled context stays cancelled, one that was not set stays so.
abbrev pub cancel : Option Bool → Option Bool
cancel none = none
cancel (some live) = some false

module _ {K V : Type 0} where
  -- `NewProvider`, given whether each query handler has been set.
  unfoldable pub new_provider :
      Bool
      → Bool
      → Text
      → ApiConfig
      → WebSocketConfig
      → List K
      → Result ProviderError (Provider K V)
  new_provider has_api has_ws name api_cfg ws_cfg ids = do
    fail_if (has_api && has_ws) both_handlers
    fail_if (not has_api && not has_ws) no_handler
    fail_if (not (is_ok (validate_api api_cfg))) bad_api_config
    fail_if (not (is_ok (validate_web_socket ws_cfg))) bad_web_socket_config
    ok (
        let p : Provider K V = record {
          name = name;
          api_cfg = api_cfg;
          ws_cfg = ws_cfg;
          ids = ids;
          provider_data = [];
          main_ctx = none;
          fetch_ctx = none;
        } in
        p)

  unfoldable pub provider_type : Provider K V → ProviderType
  provider_type p =
      if p.api_cfg.enabled then api else if p.ws_cfg.enabled then web_sockets else unknown

  -- `createResponseCh`: the capacity of the channel, or an error. A valid buffer size is positive.
  unfoldable pub response_ch_capacity : Provider K V → Result ProviderError ℕ
  response_ch_capacity p = elim (provider_type p) [
    | api ↦ ok (length p.ids)
    | web_sockets ↦ ok (pos_part p.ws_cfg.max_buffer_size)
    | unknown ↦ err not_configured
  ]

  unfoldable pub is_running : Provider K V → Bool
  is_running p = elim p.main_ctx [ none ↦ false | some live ↦ live ]

  -- `Stop`. The contexts of the fetch loop are children of the main one.
  unfoldable pub stop : Provider K V → Provider K V
  stop p =
      if is_running p then record p { main_ctx = some false; fetch_ctx = cancel p.fetch_ctx } else p

  -- What leaving `Start` does: its deferred call cancels the main context.
  abbrev pub leave : Provider K V → Provider K V
  leave p = record p { main_ctx = cancel p.main_ctx; fetch_ctx = cancel p.fetch_ctx }

  -- One turn of the loop of `Start` up to its goroutines: it leaves `Start` if there are no IDs or no
  -- handler; otherwise the channel is made, and the fetch loop gets its context, a child of the main one.
  unfoldable pub turn : Action (Provider K V) ProviderError (Unit {0})
  turn p = if is_nil p.ids then (ok tt, leave p) else (elim (response_ch_capacity p) [
    | err e ↦ (err e, leave p)
    | ok n ↦ (ok tt, record p { fetch_ctx = some (is_running p) })
  ])

  -- `Start` with a live context, up to the goroutines of its first turn.
  abbrev pub start : Action (Provider K V) ProviderError (Unit {0})
  start p = turn (record p { main_ctx = some true })

  -- What `Start` does to the provider when the goroutines of a turn have ended.
  unfoldable pub restart : Provider K V → Provider K V
  restart p = if is_running p then (turn p).1 else leave p

  -- `Update` with `WithNewIDs`: the fetch loop is cancelled, and restarts with the new IDs.
  unfoldable pub update_ids : List K → Provider K V → Provider K V
  update_ids ids p = record p { ids = ids; fetch_ctx = cancel p.fetch_ctx }

  -- `GetData`
  abbrev pub get_data : Provider K V → Dict K (ResolvedResult V)
  get_data p = p.provider_data

  module _ (eq? : Discrete K) where
    -- The new entry of `updateData`, if it writes one.
    unfoldable pub merge_result :
        Option (ResolvedResult V) → ResolvedResult V → Option (ResolvedResult V)
    merge_result none result = elim result.response_code [
      | code_unchanged ↦ none
      | code_ok ↦ some result
    ]
    merge_result (some current) result =
        if ltb result.timestamp current.timestamp then none else (elim result.response_code [
          | code_unchanged ↦ some (record current { timestamp = result.timestamp })
          | code_ok ↦ some result
        ])

    abbrev pub write_result :
        K → Option (ResolvedResult V) → Dict K (ResolvedResult V) → Dict K (ResolvedResult V)
    write_result id none held = held
    write_result id (some result) held = put eq? id result held

    -- `updateData`
    unfoldable pub update_data :
        K → ResolvedResult V → Dict K (ResolvedResult V) → Dict K (ResolvedResult V)
    update_data id result held = write_result id (merge_result (get eq? id held) result) held

    -- The loop over the resolved data of a response in `recv`.
    pub update_all :
        Dict K (ResolvedResult V) → Dict K (ResolvedResult V) → Dict K (ResolvedResult V)
    update_all [] held = held
    update_all ((id, result) ∷ results) held = update_all results (update_data id result held)

    -- One response of the channel in `recv`.
    unfoldable pub recv : {E : Type 0} → GetResponse K V E → Provider K V → Provider K V
    recv r p = record p { provider_data = update_all r.resolved p.provider_data }

module _ {K V E : Type 0} where
  -- `NewGetResponse`; nil maps become empty ones.
  abbrev pub new_get_response :
      Option (Dict K (ResolvedResult V)) → Option (Dict K E) → GetResponse K V E
  new_get_response resolved un_resolved = record {
    resolved = elim resolved [ none ↦ [] | some m ↦ m ];
    un_resolved = elim un_resolved [ none ↦ [] | some m ↦ m ];
  }

module _ {K E : Type 0} (eq? : Discrete K) where
  unfoldable pub all_failed : List K → E → Dict K E → Dict K E
  all_failed [] e m = m
  all_failed (id ∷ ids) e m = all_failed ids e (put eq? id e m)

module _ {K V E : Type 0} (eq? : Discrete K) where
  -- `NewGetResponseWithErr`
  unfoldable pub new_get_response_with_err : List K → E → GetResponse K V E
  new_get_response_with_err ids e = record { resolved = []; un_resolved = all_failed eq? ids e [] }
