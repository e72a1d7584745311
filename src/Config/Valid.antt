-- ===== src/Config/Valid.antt =====
-- Which configurations of oracle/config are valid.
use orynx.Prelude.{
  ◌≡◌, ◌≢◌, refl, ◌↔◌, ◌⊎◌, Bool, true, false, List, [], ◌∷◌, Text, All, ok, err, not, Option, none,
  some, Result, >>=-eq-ok, arith,
}
use orynx.Prelude.Dict.{Dict}
use orynx.Prelude.Int.{ℤ, pos, ◌≤ℤ◌, ◌+ℤ◌, +ℤ_parts}
use orynx.CurrencyPair.{is_empty}
use orynx.Config.{
  ConfigError, bad_option, Authentication, Endpoint, ApiConfig, WebSocketConfig, ProviderConfig,
  MetricsConfig, OracleConfig, AppConfig, validate_authentication, validate_endpoint,
  validate_endpoints, validate_enabled_api, validate_api, validate_enabled_web_socket,
  validate_web_socket, validate_provider, validate_metrics, validate_providers, validate_oracle,
  validate_enabled_app, validate_app, not_positive, negative, below_one, AppOptions, any, positive,
  read_option, read_enabled_options, read_config_from_app_opts, new_default_app_config,
  max_price_ttl,
}

-- The key and its header are given together.
abbrev pub IsValidAuthentication : Authentication → Type 0
IsValidAuthentication a = (a.api_key ≡ []) ↔ (a.api_key_header ≡ [])

abbrev pub IsValidEndpoint : Endpoint → Type 0
IsValidEndpoint e = (e.url ≢ []) × IsValidAuthentication e.authentication

abbrev pub IsPositive : ℤ → Type 0
IsPositive x = pos 1 ≤ℤ x

abbrev pub IsNotNegative : ℤ → Type 0
IsNotNegative x = pos 0 ≤ℤ x

not_positive_iff : (x : ℤ) → (not_positive x ≡ false) ↔ IsPositive x
unfolding not_positive
not_positive_iff x = ground arith

negative_iff : (x : ℤ) → (negative x ≡ false) ↔ IsNotNegative x
unfolding negative
negative_iff x = ground arith

below_one_iff : (x : ℤ) → (below_one x ≡ false) ↔ IsPositive x
unfolding below_one
below_one_iff x = ground arith

pub record IsValidApi (c : ApiConfig) : Type 0 where
  pub queries : IsPositive c.max_queries
  pub interval : IsPositive c.interval
  pub timeout : IsPositive c.timeout
  pub reconnect : IsPositive c.reconnect_timeout
  pub named : c.name ≢ []
  pub batch : c.atomic ≡ true → c.batch_size ≤ℤ pos 0
  pub has_endpoint : c.endpoints ≢ []
  pub endpoints : All IsValidEndpoint c.endpoints
  pub height_age : IsNotNegative c.max_block_height_age

validate_endpoint_iff : (e : Endpoint) → (validate_endpoint e ≡ ok tt) ↔ IsValidEndpoint e
unfolding validate_endpoint validate_authentication
validate_endpoint_iff e = ground arith

validate_endpoints_iff :
    (es : List Endpoint) → (validate_endpoints es ≡ ok tt) ↔ All IsValidEndpoint es
validate_endpoints_iff [] = (λ h. tt, λ h. refl)
validate_endpoints_iff (e ∷ es) = ground (arith, validate_endpoint_iff e, validate_endpoints_iff es)

validate_enabled_api_iff : (c : ApiConfig) → (validate_enabled_api c ≡ ok tt) ↔ IsValidApi c
unfolding validate_enabled_api not_positive negative below_one
validate_enabled_api_iff c = ground (arith, validate_endpoints_iff c.endpoints)

pub record IsValidWebSocket (c : WebSocketConfig) : Type 0 where
  pub buffer : IsPositive c.max_buffer_size
  pub reconnection : IsPositive c.reconnection_timeout
  pub post_connection : IsNotNegative c.post_connection_timeout
  pub has_endpoint : c.endpoints ≢ []
  pub endpoints : All IsValidEndpoint c.endpoints
  pub named : c.name ≢ []
  pub read_buffer : IsNotNegative c.read_buffer_size
  pub write_buffer : IsNotNegative c.write_buffer_size
  pub handshake : IsPositive c.handshake_timeout
  pub read : IsPositive c.read_timeout
  pub write : IsPositive c.write_timeout
  pub ping : IsNotNegative c.ping_interval
  pub write_interval : IsNotNegative c.write_interval
  pub read_errors : IsNotNegative c.max_read_error_count
  pub connections : IsNotNegative c.max_subscriptions_per_connection
  pub batch : IsPositive c.max_subscriptions_per_batch

validate_enabled_web_socket_iff :
    (c : WebSocketConfig) → (validate_enabled_web_socket c ≡ ok tt) ↔ IsValidWebSocket c
unfolding validate_enabled_web_socket
validate_enabled_web_socket_iff c = ground (
  arith,
  validate_endpoints_iff c.endpoints,
  below_one_iff c.max_buffer_size,
  not_positive_iff c.reconnection_timeout,
  negative_iff c.post_connection_timeout,
  negative_iff c.read_buffer_size,
  negative_iff c.write_buffer_size,
  not_positive_iff c.handshake_timeout,
  not_positive_iff c.read_timeout,
  not_positive_iff c.write_timeout,
  negative_iff c.ping_interval,
  negative_iff c.write_interval,
  negative_iff c.max_read_error_count,
  negative_iff c.max_subscriptions_per_connection,
  below_one_iff c.max_subscriptions_per_batch,
)

-- A provider is named and typed, and has exactly one handler, whose configuration is valid and named
-- after the provider.
pub record IsValidProvider (c : ProviderConfig) : Type 0 where
  pub named : c.name ≢ []
  pub typed : c.config_type ≢ []
  pub handler :
      (c.api.enabled ≡ true)
        × (c.web_socket.enabled ≡ false)
        × IsValidApi c.api
        × (c.api.name ≡ c.name)
      ⊎ (c.api.enabled ≡ false)
        × (c.web_socket.enabled ≡ true)
        × IsValidWebSocket c.web_socket
        × (c.web_socket.name ≡ c.name)

pub validate_provider_iff : (c : ProviderConfig) → (validate_provider c ≡ ok tt) ↔ IsValidProvider c
unfolding validate_provider validate_api validate_web_socket
validate_provider_iff c =
    ground (arith, validate_enabled_api_iff c.api, validate_enabled_web_socket_iff c.web_socket)

abbrev pub IsValidMetrics : MetricsConfig → Type 0
IsValidMetrics c = c.enabled ≡ true → c.prometheus_server_address ≢ []

pub record IsValidOracle (c : OracleConfig) : Type 0 where
  pub update_interval : IsPositive c.update_interval
  pub max_price_age : IsPositive c.max_price_age
  pub providers : All (λ (p : Text × ProviderConfig). IsValidProvider p.1) c.providers
  pub host : c.host ≢ []
  pub port : c.port ≢ []
  pub metrics : IsValidMetrics c.metrics

validate_providers_iff :
    (ps : Dict Text ProviderConfig)
    → (validate_providers ps ≡ ok tt) ↔ All (λ (p : Text × ProviderConfig). IsValidProvider p.1) ps
validate_providers_iff [] = (λ h. tt, λ h. refl)
validate_providers_iff ((key, p) ∷ ps) =
    ground (arith, validate_provider_iff p, validate_providers_iff ps)

validate_metrics_iff : (c : MetricsConfig) → (validate_metrics c ≡ ok tt) ↔ IsValidMetrics c
unfolding validate_metrics
validate_metrics_iff c = ground arith

-- `ValidateBasic` accepts the side-car's configuration exactly if the two durations are positive, the
-- host and the port are not empty, an enabled metrics server has an address, and every provider is
-- valid: it has a name and a type, and exactly one of an API and a websocket, with valid settings under
-- the provider's own name.
pub validate_oracle_iff : (c : OracleConfig) → (validate_oracle c ≡ ok tt) ↔ IsValidOracle c
unfolding validate_oracle
validate_oracle_iff c = ground (
  arith,
  validate_providers_iff c.providers,
  validate_metrics_iff c.metrics,
  not_positive_iff c.update_interval,
  not_positive_iff c.max_price_age,
)

pub record IsValidApp (c : AppConfig) : Type 0 where
  pub address : c.oracle_address ≢ []
  pub timeout : IsPositive c.client_timeout
  pub ttl : IsPositive c.price_ttl
  pub ttl_bound : c.price_ttl ≤ℤ max_price_ttl
  pub interval : IsPositive c.interval
  pub below_ttl : c.interval +ℤ pos 1 ≤ℤ c.price_ttl

validate_app_iff : (c : AppConfig) → (validate_app c ≡ ok tt) ↔ ((c.enabled ≡ true) → IsValidApp c)
unfolding validate_app validate_enabled_app not_positive
validate_app_iff c = ground (arith, +ℤ_parts c.interval (pos 1))

ok_injective : {c c' : AppConfig} → ◌≡◌ {A = Result ConfigError AppConfig} (ok c) (ok c') → c ≡ c'
ok_injective e = ground arith

read_enabled_options-valid :
    (opts : AppOptions) (cfg c : AppConfig)
    → read_enabled_options opts cfg ≡ ok c
    → (validate_app c ≡ ok tt) × (c.enabled ≡ cfg.enabled)
unfolding read_enabled_options
read_enabled_options-valid opts cfg c e =
    let (address, p, e1) =
      >>=-eq-ok (read_option (λ a. not (is_empty a)) opts.oracle_address cfg.oracle_address) _ e in
    let (timeout, p1, e2) =
      >>=-eq-ok (read_option positive opts.client_timeout cfg.client_timeout) _ e1 in
    let (metrics, p2, e3) =
      >>=-eq-ok (read_option any opts.metrics_enabled cfg.metrics_enabled) _ e2 in
    let (ttl, p3, e4) = >>=-eq-ok (read_option positive opts.price_ttl cfg.price_ttl) _ e3 in
    let (interval, p4, e5) = >>=-eq-ok (read_option positive opts.interval cfg.interval) _ e4 in
    let (u, p5, e6) = >>=-eq-ok (validate_app _) _ e5 in
    let same = ok_injective e6 in (rw (← same) p5, rw (← same) refl)

-- The option that switches the oracle on, off if it is not set.
abbrev pub switch : Option (Option Bool) → Option Bool
switch none = some false
switch (some b) = b

-- If `ReadConfigFromAppOpts` succeeds, the oracle is enabled as the options say; an enabled oracle's
-- configuration is valid, with an interval below the time for which prices live, and a disabled one's is
-- the default.
pub read_config_from_app_opts-IsValidApp :
    (opts : AppOptions) (c : AppConfig)
    → read_config_from_app_opts opts ≡ ok c
    → (switch opts.enabled ≡ some c.enabled)
      × (c.enabled ≡ true → IsValidApp c)
      × (c.enabled ≡ false → c ≡ new_default_app_config)
unfolding read_config_from_app_opts
read_config_from_app_opts-IsValidApp opts c e = by_switch opts.enabled refl c e
  where
    by_switch :
        (o : Option (Option Bool))
        → opts.enabled ≡ o
        → (c : AppConfig) → read_config_from_app_opts opts ≡ ok c
        → (switch opts.enabled ≡ some c.enabled)
          × (c.enabled ≡ true → IsValidApp c)
          × (c.enabled ≡ false → c ≡ new_default_app_config)
    by_switch none p c e = ground arith
    by_switch (some none) p c e = absurd (ground arith)
    by_switch (some (some false)) p c e = ground arith
    by_switch (some (some true)) p c e =
        let on : AppConfig = record new_default_app_config { enabled = true } in
        ground (arith, read_enabled_options-valid opts on c, validate_app_iff c)

-- It fails if the switch cannot be read.
pub read_config_from_app_opts_unread :
    (opts : AppOptions)
    → switch opts.enabled ≡ none
    → read_config_from_app_opts opts ≡ err bad_option
unfolding read_config_from_app_opts
read_config_from_app_opts_unread opts h = ground arith
