-- ===== src/Witnesses/Limits.antt =====
-- Caps, quiet hours, the registry of numbers, opt-outs and the taxonomy's estimates.
use financial_notification_p.Prelude.{ℕ, ◌≡◌, ◌↔◌, ◌<◌, refl, arith, false, none, some, [], ◌∷◌}
use financial_notification_p.Core.Constants.{
  FinancialEventType, NotificationChannel, is_critical_event,
}
use financial_notification_p.Core.Config.{Settings, default_settings}
use financial_notification_p.Core.Exceptions.{ok, err, quiet_hours_error}
use financial_notification_p.Redis.Server.Memory.{memory, memory-laws, empty, utc, utc-laws}
use financial_notification_p.Redis.FrequencyCap.{Caps}
use financial_notification_p.Redis.FrequencyCap.Counting.{Window}
use financial_notification_p.Redis.FrequencyCap.Exact.{
  Request, perform, perform_all, HasRoom, cap_exact,
}
use financial_notification_p.Redis.RateLimit.{count_request, minute_count}
use financial_notification_p.Redis.RateLimit.Blocked.{Refused, rate_limit-stays_blocked}
use financial_notification_p.Services.Compliance.{check_quiet_hours}
use financial_notification_p.Services.Compliance.QuietHours.{hours_after, quiet_hours_arc}
use financial_notification_p.Witnesses.Fixtures.{host}

abbrev one_an_hour : Caps
one_an_hour = record { cap_hourly = some 1; cap_daily = none; cap_weekly = none }

abbrev ask_at : ℕ → Request
ask_at t = record { at = t; user = 7; channel = NotificationChannel.email; caps = one_an_hour }

cap_exact_example :
    ((perform memory utc default_settings
        (ask_at 20)
        (perform_all memory utc default_settings (ask_at 10 ∷ []) empty)).0
      ≡ ok tt)
    ↔ ((w : Window)
        → HasRoom memory memory-laws utc utc-laws default_settings
            (ask_at 10 ∷ [])
            (ask_at 20)
            empty
            w)
cap_exact_example =
    cap_exact memory memory-laws utc utc-laws default_settings (ask_at 10 ∷ []) (ask_at 20) 0 empty
      (omega arith, tt) (omega arith, tt) (omega arith) (λ w u. refl)

quiet_hours_arc_example :
    (check_quiet_hours host 0 FinancialEventType.welcome 22 8 "Asia/Kolkata"
      ≡ err quiet_hours_error)
    ↔ ((is_critical_event FinancialEventType.welcome ≡ false)
        × (hours_after 22 23 < hours_after 22 8))
quiet_hours_arc_example =
    quiet_hours_arc host 0 FinancialEventType.welcome 22 8 23 "Asia/Kolkata" refl (omega arith)
      (omega arith) (omega arith)

abbrev one_a_minute : Settings
one_a_minute = record default_settings { rate_limit_requests_per_minute = 1 }

-- The store after a first request.
abbrev asked_before : memory.Store
asked_before = count_request memory one_a_minute 5 "10.0.0.1" empty

over_limit : 1 < minute_count memory one_a_minute 10 "10.0.0.1" asked_before
unfolding minute_count count_request
over_limit = omega arith

rate_limit-stays_blocked_example :
    Refused memory memory-laws one_a_minute "10.0.0.1"
      ((10, "/api") ∷ (60, "/api/v1/users") ∷ (110, "/api") ∷ [])
      asked_before
rate_limit-stays_blocked_example =
    rate_limit-stays_blocked memory memory-laws one_a_minute 10 "10.0.0.1" "/api"
      ((60, "/api/v1/users") ∷ (110, "/api") ∷ []) asked_before refl refl over_limit
      (omega arith, omega arith, refl, (omega arith, omega arith, refl, tt))
