-- ===== src/Repositories/Templates.antt =====
-- app/repositories/template_repository.py.
use financial_notification_p.Prelude.{
  String, ◌&&◌, not, Option, none, some, List, str_eq, find, keep, if◌then◌else◌,
}
use financial_notification_p.Core.Constants.{
  FinancialEventType, NotificationChannel, event_eq, channel_eq,
}
use financial_notification_p.Models.Rows.{NotificationTemplate}

abbrev pub find_template :
    FinancialEventType
    → NotificationChannel
    → String
    → List NotificationTemplate
    → Option NotificationTemplate
find_template event_type channel locale = find (λ (t : NotificationTemplate).
    event_eq t.event_type event_type
    && (channel_eq t.channel channel && (str_eq t.locale locale && t.is_active)))

-- with the fallback to English
unfoldable pub get_by_event_channel_locale :
    FinancialEventType
    → NotificationChannel
    → String
    → List NotificationTemplate
    → Option NotificationTemplate
get_by_event_channel_locale event_type channel locale ts =
    elim (find_template event_type channel locale ts) [
      | some t ↦ some t
      | none ↦ if not (str_eq locale "en") then find_template event_type channel "en" ts else none
    ]

unfoldable pub get_by_event_type :
    FinancialEventType → List NotificationTemplate → List NotificationTemplate
get_by_event_type event_type =
    keep (λ (t : NotificationTemplate). event_eq t.event_type event_type && t.is_active)
