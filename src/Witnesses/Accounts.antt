-- ===== src/Witnesses/Accounts.antt =====
-- Tokens and accounts.
use financial_notification_p.Prelude.{
  none, [], ◌∷◌, ◌≡◌, ◌+◌, ◌*◌, refl, some, ltb, str_eq, eq_refl, if◌then◌else◌,
}
use financial_notification_p.Core.Constants.{UserRole, FinancialEventType, event_value}
use financial_notification_p.Core.Config.{default_settings}
use financial_notification_p.Core.Exceptions.{ok, err, http_exception, authentication_error}
use financial_notification_p.Services.Auth.{
  is_token_expired, CurrentUser, Crypto, CryptoLaws, Claims, get_current_user, create_access_token,
  create_refresh_token, refresh, register, login, tokens,
}
use financial_notification_p.Services.Auth.Tokens.{get_current_user-access, tokens_kept_apart}
use financial_notification_p.Services.Auth.Accounts.{registered, register-login}
use financial_notification_p.Models.Preference.{codes, mem}
use financial_notification_p.Repositories.Users.{get_user}
use financial_notification_p.Services.Recipient.{is_opted_out}
use financial_notification_p.Api.Preferences.{
  UserPreferenceUpdate, event_codes, apply_update, ensured, resolve_target, update_preferences,
}
use financial_notification_p.Api.Preferences.OptOuts.{update_preferences-opt_outs}
use financial_notification_p.Witnesses.Fixtures.{host, asha, first_row, world_with}

-- Tokens that are not encoded, and passwords that are not hashed.
abbrev pub plain : Crypto
plain = record {
  Token = Claims;
  encode = λ c. c;
  decode = λ now c. if is_token_expired now c then none else some c;
  hash = λ p. p;
  verify = str_eq;
  lower = λ s. s;
}

plain-laws : CryptoLaws plain
unfolding is_token_expired
plain-laws = record {
  decode-live = λ now exp c e live. rw (e, is_token_expired) (rw live refl);
  decode-expired = λ now exp c e dead. rw (e, is_token_expired) (rw dead refl);
  verify-hash = eq_refl;
}

get_current_user-access_example :
    get_current_user plain host 50
      (create_access_token plain host default_settings 10 7 UserRole.manager)
    ≡ (if ltb (10 + 30 * 60) 50
        then err (http_exception 401)
        else ok (record { user_id = 7; role = UserRole.manager }))
get_current_user-access_example =
    get_current_user-access plain plain-laws host default_settings 10 50 7 UserRole.manager refl

tokens_kept_apart_example :
    (get_current_user plain host 50
        (create_refresh_token plain host default_settings 10 7 UserRole.manager)
      ≡ err (http_exception 401))
    × (refresh plain host default_settings
          (create_access_token plain host default_settings 10 7 UserRole.manager)
          (world_with first_row)
        ≡ (err authentication_error, world_with first_row))
tokens_kept_apart_example =
    tokens_kept_apart plain plain-laws host default_settings 10 50 7 UserRole.manager
      (world_with first_row)

register-login_example :
    let w = world_with first_row in
    let (result, w') =
      register plain host default_settings "ravi@example.com" "pw" "Ravi"
        (some "901")
        UserRole.user
        w in
    let u =
      registered plain plain-laws host default_settings "ravi@example.com" "pw" "Ravi"
        (some "901")
        UserRole.user
        w in
    (result ≡ ok u)
    × ((login plain host default_settings "ravi@example.com" "pw" w').0
        ≡ ok (tokens plain host default_settings w'.clock u))
register-login_example =
    register-login plain plain-laws host default_settings "ravi@example.com" "pw" "Ravi"
      (some "901") UserRole.user (world_with first_row) refl refl refl

abbrev asha_herself : CurrentUser
asha_herself = record { user_id = 7; role = UserRole.user }

-- A request that sets the opt-outs alone.
abbrev no_offers : UserPreferenceUpdate
no_offers = record {
  sms_enabled = none;
  email_enabled = none;
  whatsapp_enabled = none;
  push_enabled = none;
  in_app_enabled = none;
  disabled_event_types = some (FinancialEventType.offer_available ∷ []);
  quiet_hours_enabled = none;
  quiet_hours_start = none;
  quiet_hours_end = none;
  frequency_cap_hourly = none;
  frequency_cap_daily = none;
  frequency_cap_weekly = none;
  preferred_locale = none;
}

her_own : resolve_target 7 asha_herself ≡ ok 7
unfolding resolve_target
her_own = refl

update_preferences-opt_outs_example :
    let (result, w') = update_preferences asha_herself no_offers 7 (world_with first_row) in
    let p = apply_update no_offers (ensured asha) in
    (result ≡ ok p)
    × (get_user 7 w'.db.users ≡ some (record asha { preferences = some p }))
    × ((e : FinancialEventType)
        → is_opted_out e (some p)
          ≡ mem (codes (event_value e)) (event_codes (FinancialEventType.offer_available ∷ [])))
update_preferences-opt_outs_example =
    update_preferences-opt_outs asha_herself no_offers 7 (world_with first_row) asha
      (FinancialEventType.offer_available ∷ []) her_own refl refl
