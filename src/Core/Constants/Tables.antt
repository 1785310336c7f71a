-- ===== src/Core/Constants/Tables.antt =====
-- The tables of app/core/constants.py: default channels, event sets, and the retry limits.
use financial_notification_p.Prelude.{ℕ, Bool, true, false, List, [], ◌∷◌}
use financial_notification_p.Core.Constants.Events.{
  FinancialEventType, suspicious_activity, account_blocked, transaction_failure, otp_generated,
  loan_emi_missed,
}
use financial_notification_p.Core.Constants.Enums.{
  NotificationChannel, sms, email, whatsapp, push, in_app, NotificationPriority, critical, high,
  medium, low,
}

abbrev pub channel_priority_map : NotificationPriority → List NotificationChannel
channel_priority_map critical = sms ∷ push ∷ email ∷ in_app ∷ []
channel_priority_map high = push ∷ sms ∷ email ∷ in_app ∷ []
channel_priority_map medium = email ∷ push ∷ in_app ∷ []
channel_priority_map low = email ∷ in_app ∷ []

-- `event_type in CRITICAL_EVENTS`
unfoldable pub is_critical_event : FinancialEventType → Bool
is_critical_event suspicious_activity = true
is_critical_event account_blocked = true
is_critical_event transaction_failure = true
is_critical_event otp_generated = true
is_critical_event loan_emi_missed = true
is_critical_event _ = false

-- `event_type in DND_EXEMPT_EVENTS`
unfoldable pub is_dnd_exempt_event : FinancialEventType → Bool
is_dnd_exempt_event otp_generated = true
is_dnd_exempt_event suspicious_activity = true
is_dnd_exempt_event account_blocked = true
is_dnd_exempt_event _ = false

-- `CHANNEL_MAX_RETRIES.get(channel, 3)`: every channel has an entry
abbrev pub channel_max_retries : NotificationChannel → ℕ
channel_max_retries sms = 3
channel_max_retries email = 5
channel_max_retries whatsapp = 3
channel_max_retries push = 3
channel_max_retries in_app = 1

abbrev pub retry_delay_schedule : List ℕ
retry_delay_schedule = 60 ∷ 300 ∷ 900 ∷ 3600 ∷ 7200 ∷ []
