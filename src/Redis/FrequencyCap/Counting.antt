-- ===== src/Redis/FrequencyCap/Counting.antt =====
-- What the increments do to the counter of one window, for each of the three windows at once.
use financial_notification_p.Prelude.{ℕ, ◌+◌, ◌≤◌, ◌<◌, ◌≡◌, ◌≢◌, ◌∙◌, ap, sym, some, arith}
use financial_notification_p.Core.Constants.{NotificationChannel}
use financial_notification_p.Redis.Server.{
  Key, Redis, RedisLaws, Calendar, CalendarLaws, to_count, freq_cap_hourly, freq_cap_daily,
  freq_cap_weekly,
}
use financial_notification_p.Redis.FrequencyCap.{increment_counters}

pub data Window : Type 0 where
  hourly daily weekly : Window

abbrev pub key_of : Window → ℕ → NotificationChannel → ℕ → Key
key_of hourly = freq_cap_hourly
key_of daily = freq_cap_daily
key_of weekly = freq_cap_weekly

abbrev pub ttl_of : Window → ℕ
ttl_of hourly = 3600
ttl_of daily = 86400
ttl_of weekly = 604800

abbrev pub slot_of : Window → Calendar → ℕ → ℕ
slot_of hourly c = c.hour
slot_of daily c = c.day
slot_of weekly c = c.week

pub slot_span :
    (w : Window) {c : Calendar}
    → CalendarLaws c
    → (t u : ℕ) → slot_of w c t ≡ slot_of w c u
    → u < t + ttl_of w
slot_span hourly l t u same = l.hour_span t u same
slot_span daily l t u same = l.day_span t u same
slot_span weekly l t u same = omega (arith, l.week_span t u same)

-- One `INCR` with its `EXPIRE`.
abbrev pub touch : (r : Redis) → ℕ → Key → ℕ → r.Store → r.Store
touch r t k ttl s = r.expire t k ttl (r.incr t k s)

module _ (r : Redis) (laws : RedisLaws r) where
  pub touch_self :
      (t u : ℕ) (k : Key) (ttl : ℕ) (s : r.Store)
      → t ≤ u
      → u < t + ttl
      → r.get u k (touch r t k ttl s) ≡ some (to_count (r.get t k s) + 1)
  touch_self t u k ttl s h l =
      laws.get-expire_live t u k ttl (r.incr t k s) h l ∙ laws.get-incr_self t k s

  pub touch_ne :
      (t u : ℕ) (j k : Key) (ttl : ℕ) (s : r.Store)
      → j ≢ k
      → r.get u j (touch r t k ttl s) ≡ r.get u j s
  touch_ne t u j k ttl s ne =
      laws.get-expire_ne t u j k ttl (r.incr t k s) ne ∙ laws.get-incr_ne t u j k s ne

  module _ (cal : Calendar) where
    pub increment_self :
        (w : Window) (t u user : ℕ) (channel : NotificationChannel) (s : r.Store)
        → t ≤ u
        → u < t + ttl_of w
        → to_count (
            r.get u
              (key_of w user channel (slot_of w cal t))
              (increment_counters r cal t user channel s))
          ≡ to_count (r.get t (key_of w user channel (slot_of w cal t)) s) + 1
    unfolding increment_counters
    increment_self hourly t u user channel s h l =
        let k = key_of hourly user channel (cal.hour t) in
        let s1 = touch r t k 3600 s in
        let s2 = touch r t (key_of daily user channel (cal.day t)) 86400 s1 in
        ap to_count (
          touch_ne t u k (key_of weekly user channel (cal.week t)) 604800 s2 (λ e. cc)
          ∙ touch_ne t u k (key_of daily user channel (cal.day t)) 86400 s1 (λ e. cc)
          ∙ touch_self t u k 3600 s h l)
    increment_self daily t u user channel s h l =
        let k = key_of daily user channel (cal.day t) in
        let s1 = touch r t (key_of hourly user channel (cal.hour t)) 3600 s in
        let s2 = touch r t k 86400 s1 in
        ap to_count (
          touch_ne t u k (key_of weekly user channel (cal.week t)) 604800 s2 (λ e. cc)
          ∙ touch_self t u k 86400 s1 h l)
        ∙ ap (λ c. to_count c + 1)
            (touch_ne t t k (key_of hourly user channel (cal.hour t)) 3600 s (λ e. cc))
    increment_self weekly t u user channel s h l =
        let k = key_of weekly user channel (cal.week t) in
        let s1 = touch r t (key_of hourly user channel (cal.hour t)) 3600 s in
        let s2 = touch r t (key_of daily user channel (cal.day t)) 86400 s1 in
        ap to_count (touch_self t u k 604800 s2 h l)
        ∙ ap (λ c. to_count c + 1)
            (touch_ne t t k (key_of daily user channel (cal.day t)) 86400 s1 (λ e. cc)
              ∙ touch_ne t t k (key_of hourly user channel (cal.hour t)) 3600 s (λ e. cc))

    -- A key that is none of the three is left alone.
    pub increment_other :
        (t u user : ℕ) (j : Key) (channel : NotificationChannel) (s : r.Store)
        → ((w : Window) → j ≢ key_of w user channel (slot_of w cal t))
        → r.get u j (increment_counters r cal t user channel s) ≡ r.get u j s
    unfolding increment_counters
    increment_other t u user j channel s ne =
        let s1 = touch r t (key_of hourly user channel (cal.hour t)) 3600 s in
        let s2 = touch r t (key_of daily user channel (cal.day t)) 86400 s1 in
        touch_ne t u j (key_of weekly user channel (cal.week t)) 604800 s2 (ne weekly)
        ∙ touch_ne t u j (key_of daily user channel (cal.day t)) 86400 s1 (ne daily)
        ∙ touch_ne t u j (key_of hourly user channel (cal.hour t)) 3600 s (ne hourly)

    only_its_window :
        (w v : Window) (user other i j : ℕ) (channel c : NotificationChannel)
        → key_of w other c i ≡ key_of v user channel j
        → (other ≡ user) × (c ≡ channel) × ((w ≡ v) × (i ≡ j))
    only_its_window hourly hourly user other i j channel c e = ground arith
    only_its_window daily daily user other i j channel c e = ground arith
    only_its_window weekly weekly user other i j channel c e = ground arith
    only_its_window _ _ user other i j channel c e = cc

    -- The increments count in one slot of each window, for one user and channel.
    pub increment_ne :
        (w : Window) (t u user other i : ℕ) (channel c : NotificationChannel) (s : r.Store)
        → ¬ ((other ≡ user) × (c ≡ channel) × (i ≡ slot_of w cal t))
        → r.get u (key_of w other c i) (increment_counters r cal t user channel s)
          ≡ r.get u (key_of w other c i) s
    increment_ne w t u user other i channel c s ne =
        increment_other t u user (key_of w other c i) channel s (λ v e.
          let (a, b, (d, f)) = only_its_window w v user other i (slot_of v cal t) channel c e in
          ne (a, b, f ∙ ap (λ x. slot_of x cal t) (sym d)))
