-- ===== src/Services/Compliance/QuietHours.antt =====
-- The two forms of the interval are one arc of the clock.
use financial_notification_p.Prelude.{ℕ, ◌+◌, ◌-◌, ◌%◌, ◌<◌, ◌≡◌, ◌↔◌, String, false, some, arith}
use financial_notification_p.Core.Constants.{FinancialEventType, is_critical_event}
use financial_notification_p.Core.Exceptions.{err, quiet_hours_error}
use financial_notification_p.Services.External.{External}
use financial_notification_p.Services.Compliance.{in_quiet, check_quiet_hours}

-- How many hours after `start` the hour `h` comes.
abbrev pub hours_after : ℕ → ℕ → ℕ
hours_after start h = (h + 24 - start) % 24

-- For a known time zone, and hours of the day: the message is held back exactly when the event is
-- not critical and the local hour comes sooner after the start of the quiet hours than their end
-- does.
pub quiet_hours_arc :
    (x : External) (now : ℕ) (e : FinancialEventType) (start end_ h : ℕ) (tz : String)
    → x.local_hour tz now ≡ some h
    → start < 24
    → end_ < 24
    → h < 24
    → (check_quiet_hours x now e start end_ tz ≡ err quiet_hours_error)
      ↔ ((is_critical_event e ≡ false) × (hours_after start h < hours_after start end_))
unfolding check_quiet_hours in_quiet
quiet_hours_arc x now e start end_ h tz z hs he hh =
    (λ raised. ground arith, λ (a, b). ground arith)
