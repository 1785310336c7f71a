-- ===== src/Api/Preferences.antt =====
-- app/api/v1/endpoints/preferences.py.
use financial_notification_p.Prelude.{
  ℕ, String, Bool, true, false, not, ◌&&◌, Option, none, some, List, [], ◌∷◌, map, get_or, ◌==◌,
  if◌then◌else◌,
}
use financial_notification_p.Core.Constants.{FinancialEventType, event_value}
use financial_notification_p.Core.Exceptions.{Result, ok, err, http_exception, integrity_error}
use financial_notification_p.Models.Rows.{User}
use financial_notification_p.Models.Preference.{
  Text, UserPreference, codes, default_preference, join_commas,
}
use financial_notification_p.Models.World.{Db, World, Action}
use financial_notification_p.Redis.Server.{Redis}
use financial_notification_p.Repositories.Users.{get_user, ensure_preferences}
use financial_notification_p.Services.Auth.{CurrentUser, update_user}
use financial_notification_p.Api.Notifications.{is_manager}
pub mod OptOuts

-- A field that the request leaves out is `none`.
pub record UserPreferenceUpdate : Type 0 where
  pub sms_enabled : Option Bool
  pub email_enabled : Option Bool
  pub whatsapp_enabled : Option Bool
  pub push_enabled : Option Bool
  pub in_app_enabled : Option Bool
  pub disabled_event_types : Option (List FinancialEventType)
  pub quiet_hours_enabled : Option Bool
  pub quiet_hours_start : Option ℕ
  pub quiet_hours_end : Option ℕ
  pub frequency_cap_hourly : Option ℕ
  pub frequency_cap_daily : Option ℕ
  pub frequency_cap_weekly : Option ℕ
  pub preferred_locale : Option String

abbrev pub event_codes : List FinancialEventType → List Text
event_codes = map (λ e. codes (event_value e))

-- the joined list, or the text as it was
abbrev pub write_opt_outs : Option (List FinancialEventType) → Option Text → Option Text
write_opt_outs none old = old
write_opt_outs (some es) old = some (join_commas (event_codes es))

unfoldable pub apply_update : UserPreferenceUpdate → UserPreference → UserPreference
apply_update u p = record {
  user_id = p.user_id;
  sms_enabled = get_or u.sms_enabled p.sms_enabled;
  email_enabled = get_or u.email_enabled p.email_enabled;
  whatsapp_enabled = get_or u.whatsapp_enabled p.whatsapp_enabled;
  push_enabled = get_or u.push_enabled p.push_enabled;
  in_app_enabled = get_or u.in_app_enabled p.in_app_enabled;
  disabled_event_types = write_opt_outs u.disabled_event_types p.disabled_event_types;
  quiet_hours_enabled = get_or u.quiet_hours_enabled p.quiet_hours_enabled;
  quiet_hours_start = get_or u.quiet_hours_start p.quiet_hours_start;
  quiet_hours_end = get_or u.quiet_hours_end p.quiet_hours_end;
  frequency_cap_hourly = get_or u.frequency_cap_hourly p.frequency_cap_hourly;
  frequency_cap_daily = get_or u.frequency_cap_daily p.frequency_cap_daily;
  frequency_cap_weekly = get_or u.frequency_cap_weekly p.frequency_cap_weekly;
  preferred_locale = get_or u.preferred_locale p.preferred_locale;
}

unfoldable pub resolve_target : ℕ → CurrentUser → Result ℕ
resolve_target user_id u =
    if not (user_id == u.user_id) && not (is_manager u)
    then err (http_exception 403)
    else ok user_id

-- The preferences that `ensure_preferences` returns for a user.
abbrev pub ensured : User → UserPreference
ensured u = get_or u.preferences (default_preference u.id)

module _ {r : Redis} where
  -- What the handlers do behind `_resolve_target`: a row without its user breaks the foreign key.
  unfoldable pub with_ensured : (UserPreference → UserPreference) → ℕ → Action r UserPreference
  with_ensured f id w = elim (get_user id w.db.users) [
    | none ↦ (err integrity_error, w)
    | some u ↦
        let p = f (ensured u) in
        (ok p, record w { db = update_user id (λ v. record v { preferences = some p }) w.db })
  ]

  unfoldable pub get_preferences : CurrentUser → ℕ → Action r UserPreference
  get_preferences u id w = elim (resolve_target id u) [
    | err e ↦ (err e, w)
    | ok target ↦ with_ensured (λ p. p) target w
  ]

  unfoldable pub update_preferences :
      CurrentUser → UserPreferenceUpdate → ℕ → Action r UserPreference
  update_preferences u payload id w = elim (resolve_target id u) [
    | err e ↦ (err e, w)
    | ok target ↦ with_ensured (apply_update payload) target w
  ]

  unfoldable pub reset_preferences : CurrentUser → ℕ → Action r UserPreference
  reset_preferences u id w = elim (resolve_target id u) [
    | err e ↦ (err e, w)
    | ok target ↦ with_ensured (λ p. default_preference target) target w
  ]
