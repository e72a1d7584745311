-- ===== src/Config.antt =====
-- oracle/config: api.go, websocket.go, provider.go, metrics.go, oracle.go and app.go. Durations are
-- nanoseconds. A Go `int` or duration is an integer.
pub mod Valid
pub mod Tests
use orynx.Prelude.{
  ◌^◌, ◌*◌, Bool, true, false, not, ◌&&◌, ◌||◌, List, [], ◌∷◌, Option, none, some, Text,
  Text-discrete, codes, Result, ok, err, ◌>>=◌, ◌>>◌, fail_if, wrap_err, ite, if◌then◌else◌,
}
use orynx.Prelude.Dict.{Dict}
use orynx.Prelude.Int.{ℤ, pos, ltb_ℤ, leb_ℤ}
use orynx.CurrencyPair.{is_empty}

pub data ConfigError : Type 0 where
  empty_url empty_api_key_header empty_api_key : ConfigError
  bad_max_queries bad_durations empty_name batch_and_atomic no_endpoints bad_height_age :
      ConfigError
  bad_buffer_size bad_timeout negative_field bad_batch_size : ConfigError
  both_handlers no_handler wrong_name empty_type : ConfigError
  bad_update_interval bad_max_price_age empty_host empty_port empty_address : ConfigError
  bad_price_ttl bad_interval interval_not_below_ttl bad_option : ConfigError
  endpoint_error api_error web_socket_error provider_error : ConfigError → ConfigError

abbrev pub is_nil : {A : Type 0} → List A → Bool
is_nil [] = true
is_nil (x ∷ xs) = false

-- `x <= 0`, `x < 0` and `x < 1`
unfoldable pub not_positive : ℤ → Bool
not_positive x = leb_ℤ x (pos 0)

unfoldable pub negative : ℤ → Bool
negative x = ltb_ℤ x (pos 0)

unfoldable pub below_one : ℤ → Bool
below_one x = ltb_ℤ x (pos 1)

pub record Authentication : Type 0 where
  pub api_key : Text
  pub api_key_header : Text

-- `Authentication.Enabled`
unfoldable pub enabled : Authentication → Bool
enabled a = not (is_empty a.api_key) && not (is_empty a.api_key_header)

unfoldable pub validate_authentication : Authentication → Result ConfigError (Unit {0})
validate_authentication a = do
  fail_if (not (is_empty a.api_key) && is_empty a.api_key_header) empty_api_key_header
  fail_if (is_empty a.api_key && not (is_empty a.api_key_header)) empty_api_key

pub record Endpoint : Type 0 where
  pub url : Text
  pub authentication : Authentication

unfoldable pub validate_endpoint : Endpoint → Result ConfigError (Unit {0})
validate_endpoint e = do
  fail_if (is_empty e.url) empty_url
  validate_authentication e.authentication

-- The loop over the endpoints, in both kinds of configuration.
abbrev pub validate_endpoints : List Endpoint → Result ConfigError (Unit {0})
validate_endpoints [] = ok tt
validate_endpoints (e ∷ es) = do validate_endpoint e; validate_endpoints es

pub record ApiConfig : Type 0 where
  pub enabled : Bool
  pub timeout : ℤ
  pub interval : ℤ
  pub reconnect_timeout : ℤ
  pub max_queries : ℤ
  pub atomic : Bool
  pub endpoints : List Endpoint
  pub batch_size : ℤ
  pub name : Text
  pub max_block_height_age : ℤ

-- The checks of an API configuration that is enabled.
unfoldable pub validate_enabled_api : ApiConfig → Result ConfigError (Unit {0})
validate_enabled_api c = do
  fail_if (below_one c.max_queries) bad_max_queries
  fail_if (not_positive c.interval || not_positive c.timeout || not_positive c.reconnect_timeout)
      bad_durations
  fail_if (is_empty c.name) empty_name
  fail_if (not (not_positive c.batch_size) && c.atomic) batch_and_atomic
  fail_if (is_nil c.endpoints) no_endpoints
  validate_endpoints c.endpoints
  fail_if (negative c.max_block_height_age) bad_height_age

unfoldable pub validate_api : ApiConfig → Result ConfigError (Unit {0})
validate_api c = if not c.enabled then ok tt else validate_enabled_api c

pub record WebSocketConfig : Type 0 where
  pub enabled : Bool
  pub max_buffer_size : ℤ
  pub reconnection_timeout : ℤ
  pub post_connection_timeout : ℤ
  pub endpoints : List Endpoint
  pub name : Text
  pub read_buffer_size : ℤ
  pub write_buffer_size : ℤ
  pub handshake_timeout : ℤ
  pub enable_compression : Bool
  pub read_timeout : ℤ
  pub write_timeout : ℤ
  pub ping_interval : ℤ
  pub write_interval : ℤ
  pub max_read_error_count : ℤ
  pub max_subscriptions_per_connection : ℤ
  pub max_subscriptions_per_batch : ℤ

-- The checks of a websocket configuration that is enabled.
unfoldable pub validate_enabled_web_socket : WebSocketConfig → Result ConfigError (Unit {0})
validate_enabled_web_socket c = do
  fail_if (below_one c.max_buffer_size) bad_buffer_size
  fail_if (not_positive c.reconnection_timeout) bad_timeout
  fail_if (negative c.post_connection_timeout) bad_timeout
  fail_if (is_nil c.endpoints) no_endpoints
  wrap_err endpoint_error (validate_endpoints c.endpoints)
  fail_if (is_empty c.name) empty_name
  fail_if (negative c.read_buffer_size) negative_field
  fail_if (negative c.write_buffer_size) negative_field
  fail_if (not_positive c.handshake_timeout) bad_timeout
  fail_if (not_positive c.read_timeout) bad_timeout
  fail_if (not_positive c.write_timeout) bad_timeout
  fail_if (negative c.ping_interval) negative_field
  fail_if (negative c.write_interval) negative_field
  fail_if (negative c.max_read_error_count) negative_field
  fail_if (negative c.max_subscriptions_per_connection) negative_field
  fail_if (below_one c.max_subscriptions_per_batch) bad_batch_size

unfoldable pub validate_web_socket : WebSocketConfig → Result ConfigError (Unit {0})
validate_web_socket c = if not c.enabled then ok tt else validate_enabled_web_socket c

pub record ProviderConfig : Type 0 where
  pub name : Text
  pub api : ApiConfig
  pub web_socket : WebSocketConfig
  pub config_type : Text

abbrev differs : Text → Text → Bool
differs a b = ite (Text-discrete a b) false true

abbrev pub validate_handler :
    Bool
    → Result ConfigError (Unit {0})
    → (ConfigError → ConfigError)
    → Text
    → Text
    → Result ConfigError (Unit {0})
validate_handler false verdict wrap name expected = ok tt
validate_handler true verdict wrap name expected = do
  wrap_err wrap verdict
  fail_if (differs name expected) wrong_name

unfoldable pub validate_provider : ProviderConfig → Result ConfigError (Unit {0})
validate_provider c = do
  fail_if (is_empty c.name) empty_name
  fail_if (c.api.enabled && c.web_socket.enabled) both_handlers
  fail_if (not c.api.enabled && not c.web_socket.enabled) no_handler
  validate_handler c.api.enabled (validate_api c.api) api_error c.api.name c.name
  validate_handler c.web_socket.enabled (validate_web_socket c.web_socket) web_socket_error
      c.web_socket.name c.name
  fail_if (is_empty c.config_type) empty_type

pub record MetricsConfig : Type 0 where
  pub prometheus_server_address : Text
  pub enabled : Bool

unfoldable pub validate_metrics : MetricsConfig → Result ConfigError (Unit {0})
validate_metrics c =
    if not c.enabled then ok tt else fail_if (is_empty c.prometheus_server_address) empty_address

pub record OracleConfig : Type 0 where
  pub update_interval : ℤ
  pub max_price_age : ℤ
  pub providers : Dict Text ProviderConfig
  pub metrics : MetricsConfig
  pub host : Text
  pub port : Text

abbrev pub validate_providers : Dict Text ProviderConfig → Result ConfigError (Unit {0})
validate_providers [] = ok tt
validate_providers ((key, p) ∷ ps) = do
  wrap_err provider_error (validate_provider p)
  validate_providers ps

-- `OracleConfig.ValidateBasic`
unfoldable pub validate_oracle : OracleConfig → Result ConfigError (Unit {0})
validate_oracle c = do
  fail_if (not_positive c.update_interval) bad_update_interval
  fail_if (not_positive c.max_price_age) bad_max_price_age
  validate_providers c.providers
  fail_if (is_empty c.host) empty_host
  fail_if (is_empty c.port) empty_port
  validate_metrics c.metrics

pub record AppConfig : Type 0 where
  pub enabled : Bool
  pub oracle_address : Text
  pub client_timeout : ℤ
  pub metrics_enabled : Bool
  pub price_ttl : ℤ
  pub interval : ℤ

-- `MaxInterval` and `MaxPriceTTL`, a minute each.
abbrev pub max_interval : ℤ
max_interval = pos (60 * 10 ^ 9)

abbrev pub max_price_ttl : ℤ
max_price_ttl = pos (60 * 10 ^ 9)

-- The checks of an application's configuration that is enabled.
unfoldable pub validate_enabled_app : AppConfig → Result ConfigError (Unit {0})
validate_enabled_app c = do
  fail_if (is_empty c.oracle_address) empty_address
  fail_if (not_positive c.client_timeout) bad_timeout
  fail_if (not_positive c.price_ttl || ltb_ℤ max_price_ttl c.price_ttl) bad_price_ttl
  fail_if (not_positive c.interval || ltb_ℤ max_interval c.interval) bad_interval
  fail_if (leb_ℤ c.price_ttl c.interval) interval_not_below_ttl

unfoldable pub validate_app : AppConfig → Result ConfigError (Unit {0})
validate_app c = if not c.enabled then ok tt else validate_enabled_app c

-- `NewDefaultAppConfig`
abbrev pub new_default_app_config : AppConfig
new_default_app_config = record {
  enabled = false;
  oracle_address = codes "localhost:8080";
  client_timeout = pos (3 * 10 ^ 9);
  metrics_enabled = false;
  price_ttl = pos (10 * 10 ^ 9);
  interval = pos (1500 * 10 ^ 6);
}

-- The application's options: `none` if `Get` returns nil, `some none` if the value cannot be cast to
-- the type of the option.
pub record AppOptions : Type 0 where
  pub enabled : Option (Option Bool)
  pub oracle_address : Option (Option Text)
  pub client_timeout : Option (Option ℤ)
  pub metrics_enabled : Option (Option Bool)
  pub price_ttl : Option (Option ℤ)
  pub interval : Option (Option ℤ)

-- An option's value, or the default if the option is not set or not usable.
abbrev pub read_option : {A : Type 0} → (A → Bool) → Option (Option A) → A → Result ConfigError A
read_option usable none default = ok default
read_option usable (some none) default = err bad_option
read_option usable (some (some v)) default = ok (if usable v then v else default)

abbrev pub any : {A : Type 0} → A → Bool
any v = true

abbrev pub positive : ℤ → Bool
positive x = not (not_positive x)

-- The options that are read once the oracle is known to be enabled.
unfoldable pub read_enabled_options : AppOptions → AppConfig → Result ConfigError AppConfig
read_enabled_options opts cfg = do
  address ← read_option (λ a. not (is_empty a)) opts.oracle_address cfg.oracle_address
  timeout ← read_option positive opts.client_timeout cfg.client_timeout
  metrics ← read_option any opts.metrics_enabled cfg.metrics_enabled
  ttl ← read_option positive opts.price_ttl cfg.price_ttl
  interval ← read_option positive opts.interval cfg.interval
  let read =
      let c : AppConfig = record {
        enabled = cfg.enabled;
        oracle_address = address;
        client_timeout = timeout;
        metrics_enabled = metrics;
        price_ttl = ttl;
        interval = interval;
      } in
      c
  validate_app read
  ok read

-- `ReadConfigFromAppOpts`
unfoldable pub read_config_from_app_opts : AppOptions → Result ConfigError AppConfig
read_config_from_app_opts opts = do
  enabled ← read_option any opts.enabled new_default_app_config.enabled
  let cfg = let c : AppConfig = record new_default_app_config { enabled = enabled } in c
  if not enabled then ok cfg else read_enabled_options opts cfg
