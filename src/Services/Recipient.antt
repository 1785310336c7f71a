-- ===== src/Services/Recipient.antt =====
-- app/services/notification_factory.py: whether and where a user is reached, `_is_channel_enabled`,
-- `_get_recipient` and the check of the opt-outs.
use financial_notification_p.Prelude.{
  String, Bool, true, false, Option, none, some, truthy, if◌then◌else◌,
}
use financial_notification_p.Core.Constants.{
  FinancialEventType, NotificationChannel, sms, email, whatsapp, push, in_app, event_value,
}
use financial_notification_p.Models.Rows.{User}
use financial_notification_p.Models.Preference.{UserPreference, codes, mem, get_disabled_events}
use financial_notification_p.Services.External.{External}

unfoldable pub is_channel_enabled : NotificationChannel → Option UserPreference → Bool
is_channel_enabled c none = true
is_channel_enabled sms (some p) = p.sms_enabled
is_channel_enabled email (some p) = p.email_enabled
is_channel_enabled whatsapp (some p) = p.whatsapp_enabled
is_channel_enabled push (some p) = p.push_enabled
is_channel_enabled in_app (some p) = p.in_app_enabled

unfoldable pub get_recipient : External → User → NotificationChannel → Option String
get_recipient x user sms = user.phone
get_recipient x user whatsapp = user.phone
get_recipient x user email = some user.email
get_recipient x user push = user.firebase_token
get_recipient x user in_app = some (x.uuid_text user.id)

-- The text itself where it is not empty.
abbrev pub filled : Option String → Option String
filled none = none
filled (some s) = if truthy s then some s else none

unfoldable pub is_opted_out : FinancialEventType → Option UserPreference → Bool
is_opted_out e none = false
is_opted_out e (some p) = mem (codes (event_value e)) (get_disabled_events p)
