-- ===== src/Core/Config.antt =====
-- app/core/config.py: the settings that the modelled code reads. Their values come from the
-- environment; the defaults are those of the class.
use financial_notification_p.Prelude.{ℕ, Bool, true, String}

pub record Settings : Type 0 where
  pub frequency_cap_hourly : ℕ
  pub frequency_cap_daily : ℕ
  pub frequency_cap_weekly : ℕ
  pub trai_dnd_check_enabled : Bool
  pub trai_dnd_api_url : String
  pub trai_dnd_api_key : String
  pub rate_limit_enabled : Bool
  pub rate_limit_requests_per_minute : ℕ
  pub rate_limit_requests_per_hour : ℕ
  pub jwt_access_token_expire_minutes : ℕ
  pub jwt_refresh_token_expire_days : ℕ

abbrev pub default_settings : Settings
default_settings = record {
  frequency_cap_hourly = 10;
  frequency_cap_daily = 50;
  frequency_cap_weekly = 200;
  trai_dnd_check_enabled = true;
  trai_dnd_api_url = "";
  trai_dnd_api_key = "";
  rate_limit_enabled = true;
  rate_limit_requests_per_minute = 60;
  rate_limit_requests_per_hour = 1000;
  jwt_access_token_expire_minutes = 30;
  jwt_refresh_token_expire_days = 7;
}
