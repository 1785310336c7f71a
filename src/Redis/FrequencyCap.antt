-- ===== src/Redis/FrequencyCap.antt =====
-- app/redis/frequency_cap.py: `FrequencyCapService`, over a server and a calendar. The clock is
-- read once in a call.
use financial_notification_p.Prelude.{
  ℕ, zero, suc, ◌+◌, Bool, true, false, ◌&&◌, Option, none, some, List, [], ◌∷◌, ltb, leb,
  if◌then◌else◌,
}
use financial_notification_p.Core.Constants.{NotificationChannel}
use financial_notification_p.Core.Config.{Settings}
use financial_notification_p.Core.Exceptions.{
  Result, ok, err, raise_if, ◌>>◌, frequency_cap_exceeded,
}
use financial_notification_p.Redis.Server.{
  Key, Redis, Calendar, to_count, freq_cap_hourly, freq_cap_daily, freq_cap_weekly,
}
pub mod Counting
pub mod Exact

-- `cap or default`: a cap of 0 is no cap of its own
abbrev pub limit_of : Option ℕ → ℕ → ℕ
limit_of none d = d
limit_of (some zero) d = d
limit_of (some (suc n)) d = suc n

pub record Caps : Type 0 where
  pub cap_hourly : Option ℕ
  pub cap_daily : Option ℕ
  pub cap_weekly : Option ℕ

module _ (r : Redis) (cal : Calendar) where
  open r use {Store, get, incr, expire, delete}

  -- the second pipeline of `check_and_increment`
  unfoldable pub increment_counters : ℕ → ℕ → NotificationChannel → Store → Store
  increment_counters t user channel s =
      let hourly_key = freq_cap_hourly user channel (cal.hour t) in
      let daily_key = freq_cap_daily user channel (cal.day t) in
      let weekly_key = freq_cap_weekly user channel (cal.week t) in
      let s1 = expire t hourly_key 3600 (incr t hourly_key s) in
      let s2 = expire t daily_key 86400 (incr t daily_key s1) in
      expire t weekly_key 604800 (incr t weekly_key s2)

  unfoldable pub check_caps :
      Settings → ℕ → ℕ → NotificationChannel → Caps → Store → Result (Unit {0})
  check_caps settings t user channel caps s =
      let hourly_limit = limit_of caps.cap_hourly settings.frequency_cap_hourly in
      let daily_limit = limit_of caps.cap_daily settings.frequency_cap_daily in
      let weekly_limit = limit_of caps.cap_weekly settings.frequency_cap_weekly in
      let hourly_count = to_count (get t (freq_cap_hourly user channel (cal.hour t)) s) in
      let daily_count = to_count (get t (freq_cap_daily user channel (cal.day t)) s) in
      let weekly_count = to_count (get t (freq_cap_weekly user channel (cal.week t)) s) in
      raise_if (ltb 0 hourly_limit && leb hourly_limit hourly_count) frequency_cap_exceeded
      >> raise_if (ltb 0 daily_limit && leb daily_limit daily_count) frequency_cap_exceeded
      >> raise_if (ltb 0 weekly_limit && leb weekly_limit weekly_count) frequency_cap_exceeded

  unfoldable pub check_and_increment :
      Settings → ℕ → ℕ → NotificationChannel → Caps → Store → Result (Unit {0}) × Store
  check_and_increment settings t user channel caps s =
      elim (check_caps settings t user channel caps s) [
        | ok _ ↦ (ok tt, increment_counters t user channel s)
        | err e ↦ (err e, s)
      ]

  -- hourly, daily and weekly
  unfoldable pub get_counts : ℕ → ℕ → NotificationChannel → Store → ℕ × ℕ × ℕ
  get_counts t user channel s = (
    to_count (get t (freq_cap_hourly user channel (cal.hour t)) s),
    to_count (get t (freq_cap_daily user channel (cal.day t)) s),
    to_count (get t (freq_cap_weekly user channel (cal.week t)) s),
  )

  unfoldable pub reset : ℕ → ℕ → NotificationChannel → Store → Store
  reset t user channel s = delete (freq_cap_weekly user channel (cal.week t)) (
      delete (freq_cap_daily user channel (cal.day t))
        (delete (freq_cap_hourly user channel (cal.hour t)) s))
