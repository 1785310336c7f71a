-- ===== src/Redis/Server.antt =====
-- The Redis server, which the platform only calls: its commands and their documented behaviour are
-- parameters. The keys are those that app/redis/client.py (`RedisKeys`), app/redis/frequency_cap_v2.py
-- and app/middleware/rate_limit.py build. A key is text with its parts joined by colons, and no part
-- holds a colon, so it is a constructor with its parts as fields.
use financial_notification_p.Prelude.{
  ℕ, ◌+◌, ◌≤◌, ◌<◌, String, ◌≡◌, ◌≢◌, Bool, true, false, Option, none, some, get_or, if◌then◌else◌,
}
use financial_notification_p.Core.Constants.{NotificationChannel}
pub mod Memory

pub data Key : Type 0 where
  dnd_cache : String → Key
  freq_cap_hourly freq_cap_daily freq_cap_weekly : ℕ → NotificationChannel → ℕ → Key
  global_daily_key : String → ℕ → Key
  channel_daily_key : String → String → ℕ → Key
  category_hourly_key : String → String → ℕ → Key
  cooldown_key : String → String → Key
  rl_min rl_hour : String → Key

-- Each command takes the server's time in seconds. Values are numbers: counters, and 1 or 0 for a
-- JSON `true` or `false`.
pub record Redis : Type 1 where
  pub Store : Type 0
  pub get : ℕ → Key → Store → Option ℕ
  pub incr : ℕ → Key → Store → Store
  pub expire : ℕ → Key → ℕ → Store → Store
  pub setex : ℕ → Key → ℕ → ℕ → Store → Store
  pub delete : Key → Store → Store
  -- `KEYS` with a pattern, and `DELETE` of the keys that it lists
  pub delete_matching : (Key → Bool) → Store → Store

-- `int(result or 0)`
abbrev pub to_count : Option ℕ → ℕ
to_count o = get_or o 0

-- What the documentation of the commands says, as far as the platform relies on it.
pub record RedisLaws (r : Redis) : Type 0 where
  pub get-incr_self :
      (t : ℕ) (k : Key) (s : r.Store) → r.get t k (r.incr t k s) ≡ some (to_count (r.get t k s) + 1)
  pub get-incr_ne :
      (t u : ℕ) (j k : Key) (s : r.Store) → j ≢ k → r.get u j (r.incr t k s) ≡ r.get u j s
  pub get-expire_live :
      (t u : ℕ) (k : Key) (ttl : ℕ) (s : r.Store)
      → t ≤ u
      → u < t + ttl
      → r.get u k (r.expire t k ttl s) ≡ r.get t k s
  pub get-expire_dead :
      (t u : ℕ) (k : Key) (ttl : ℕ) (s : r.Store)
      → t + ttl ≤ u
      → r.get u k (r.expire t k ttl s) ≡ none
  pub get-expire_ne :
      (t u : ℕ) (j k : Key) (ttl : ℕ) (s : r.Store)
      → j ≢ k
      → r.get u j (r.expire t k ttl s) ≡ r.get u j s
  pub get-setex_live :
      (t u : ℕ) (k : Key) (ttl v : ℕ) (s : r.Store)
      → t ≤ u
      → u < t + ttl
      → r.get u k (r.setex t k ttl v s) ≡ some v
  pub get-setex_dead :
      (t u : ℕ) (k : Key) (ttl v : ℕ) (s : r.Store)
      → t + ttl ≤ u
      → r.get u k (r.setex t k ttl v s) ≡ none
  pub get-setex_ne :
      (t u : ℕ) (j k : Key) (ttl v : ℕ) (s : r.Store)
      → j ≢ k
      → r.get u j (r.setex t k ttl v s) ≡ r.get u j s
  pub get-delete_matching :
      (u : ℕ) (k : Key) (p : Key → Bool) (s : r.Store)
      → r.get u k (r.delete_matching p s) ≡ (if p k then none else r.get u k s)

-- The calendar of `arrow.utcnow().format(…)`: the hour and the day that an instant lies in, and what
-- `YYYY-WW` gives. arrow's token `W` is the whole ISO week date, with the weekday, so that this text too is
-- that of one day. Texts of one format are equal when the numbers are.
pub record Calendar : Type 0 where
  pub hour : ℕ → ℕ
  pub day : ℕ → ℕ
  pub week : ℕ → ℕ

-- Two instants of one hour are less than an hour apart, and so for days and ISO week dates.
pub record CalendarLaws (c : Calendar) : Type 0 where
  pub hour_span : (t u : ℕ) → c.hour t ≡ c.hour u → u < t + 3600
  pub day_span : (t u : ℕ) → c.day t ≡ c.day u → u < t + 86400
  pub week_span : (t u : ℕ) → c.week t ≡ c.week u → u < t + 86400
