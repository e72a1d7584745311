-- ===== src/Config/Tests.antt =====
-- Runs of oracle/config on concrete configurations.
use orynx.Prelude.{◌≡◌, refl, true, false, [], none, some, codes, ok, err}
use orynx.Prelude.Int.{pos}
use orynx.Config.{
  AppConfig, AppOptions, OracleConfig, interval_not_below_ttl, validate_oracle, validate_app,
  validate_enabled_app, validate_metrics, not_positive, new_default_app_config,
  read_config_from_app_opts, read_enabled_options,
}
use orynx.Config.Valid.{IsValidApp, switch, read_config_from_app_opts-IsValidApp}

abbrev no_providers : OracleConfig
no_providers = record {
  update_interval = pos 500;
  max_price_age = pos 1000;
  providers = [];
  metrics = record { prometheus_server_address = []; enabled = false };
  host = codes "0.0.0.0";
  port = codes "8080";
}

no_providers_valid : validate_oracle no_providers ≡ ok tt
unfolding validate_oracle validate_metrics not_positive
no_providers_valid = refl

-- Only the switch and the time for which prices live are set.
abbrev options : AppOptions
options = record {
  enabled = some (some true);
  oracle_address = none;
  client_timeout = none;
  metrics_enabled = none;
  price_ttl = some (some (pos 1000));
  interval = none;
}

-- The default interval is too long for so short a time.
options_refused : read_config_from_app_opts options ≡ err interval_not_below_ttl
unfolding read_config_from_app_opts read_enabled_options validate_app validate_enabled_app
    not_positive
options_refused = refl

-- An interval that fits is set too.
abbrev good_options : AppOptions
good_options = record options { interval = some (some (pos 400)) }

abbrev read_config : AppConfig
read_config = record new_default_app_config {
  enabled = true;
  price_ttl = pos 1000;
  interval = pos 400;
}

options_read : read_config_from_app_opts good_options ≡ ok read_config
unfolding read_config_from_app_opts read_enabled_options validate_app validate_enabled_app
    not_positive
options_read = refl

read_config_from_app_opts-IsValidApp_example :
    (switch good_options.enabled ≡ some true)
    × (true ≡ true → IsValidApp read_config)
    × (true ≡ false → read_config ≡ new_default_app_config)
read_config_from_app_opts-IsValidApp_example =
    read_config_from_app_opts-IsValidApp good_options read_config options_read
