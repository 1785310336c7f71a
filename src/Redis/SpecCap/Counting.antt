-- ===== src/Redis/SpecCap/Counting.antt =====
-- What the increments of a call do to the counter of one dimension.
use financial_notification_p.Prelude.{
  ℕ, ◌+◌, ◌≤◌, ◌<◌, ◌≡◌, ◌≢◌, ◌∙◌, ap, subst, String, Bool, true, false, ◌&&◌, ◌==◌, str_eq, eq_iff,
  arith,
}
use financial_notification_p.Redis.Server.{
  Key, Redis, RedisLaws, Calendar, CalendarLaws, to_count, global_daily_key, channel_daily_key,
  category_hourly_key, cooldown_key,
}
use financial_notification_p.Redis.FrequencyCap.Counting.{touch, touch_self, touch_ne}
use financial_notification_p.Redis.SpecCap.{
  increment_all, event_code_to_category, read_count, same_type_cooldown_seconds, global_daily_cap,
  category_hourly_cap, channel_limit,
}

-- A user's day, a user's day on one channel, and a user's hour in one category.
pub data Dimension : Type 0 where
  global : Dimension
  of_channel of_category : String → Dimension

abbrev pub key_of : Dimension → String → ℕ → Key
key_of global user = global_daily_key user
key_of (of_channel channel) user = channel_daily_key user channel
key_of (of_category category) user = category_hourly_key user category

abbrev pub ttl_of : Dimension → ℕ
ttl_of global = 86400
ttl_of (of_channel _) = 86400
ttl_of (of_category _) = 3600

abbrev pub slot_of : Dimension → Calendar → ℕ → ℕ
slot_of global c = c.day
slot_of (of_channel _) c = c.day
slot_of (of_category _) c = c.hour

abbrev pub cap_of : Dimension → ℕ
cap_of global = global_daily_cap
cap_of (of_channel channel) = channel_limit channel
cap_of (of_category _) = category_hourly_cap

pub slot_span :
    (d : Dimension) {c : Calendar}
    → CalendarLaws c
    → (t u : ℕ) → slot_of d c t ≡ slot_of d c u
    → u < t + ttl_of d
slot_span global l = l.day_span
slot_span (of_channel _) l = l.day_span
slot_span (of_category _) l = l.hour_span

-- Whether a call for this channel and event counts in the dimension.
abbrev pub lies_in : Dimension → String → String → Bool
lies_in global channel event = true
lies_in (of_channel c) channel event = str_eq channel c
lies_in (of_category c) channel event = str_eq (event_code_to_category event) c

module _ (r : Redis) (laws : RedisLaws r) (cal : Calendar) where
  module _ (t u : ℕ) (user channel event : String) (s : r.Store) where
    abbrev counters : r.Store
    counters =
        touch r t (category_hourly_key user (event_code_to_category event) (cal.hour t)) 3600 (
          touch r t (channel_daily_key user channel (cal.day t)) 86400
            (touch r t (global_daily_key user (cal.day t)) 86400 s))

    -- A key that is none of the four is left alone.
    pub increment_all-ne :
        (j : Key)
        → j ≢ global_daily_key user (cal.day t)
        → j ≢ channel_daily_key user channel (cal.day t)
        → j ≢ category_hourly_key user (event_code_to_category event) (cal.hour t)
        → j ≢ cooldown_key user event
        → r.get u j (increment_all r cal t user channel event s) ≡ r.get u j s
    unfolding increment_all
    increment_all-ne j no_global no_channel no_category no_cooldown =
        let s1 = touch r t (global_daily_key user (cal.day t)) 86400 s in
        let s2 = touch r t (channel_daily_key user channel (cal.day t)) 86400 s1 in
        laws.get-setex_ne t u j (cooldown_key user event) same_type_cooldown_seconds 1 counters
          no_cooldown
        ∙ touch_ne r laws t u j
            (category_hourly_key user (event_code_to_category event) (cal.hour t)) 3600 s2
            no_category
        ∙ touch_ne r laws t u j (channel_daily_key user channel (cal.day t)) 86400 s1 no_channel
        ∙ touch_ne r laws t u j (global_daily_key user (cal.day t)) 86400 s no_global

    global_counted :
        t ≤ u
        → u < t + 86400
        → read_count r cal u
            (global_daily_key user (cal.day t))
            (increment_all r cal t user channel event s)
          ≡ read_count r cal t (global_daily_key user (cal.day t)) s + 1
    unfolding increment_all
    global_counted le lt =
        let k = global_daily_key user (cal.day t) in
        let s1 = touch r t k 86400 s in
        let s2 = touch r t (channel_daily_key user channel (cal.day t)) 86400 s1 in
        ap to_count (
          laws.get-setex_ne t u k (cooldown_key user event) same_type_cooldown_seconds 1 counters
            (λ e. cc)
          ∙ touch_ne r laws t u k
              (category_hourly_key user (event_code_to_category event) (cal.hour t)) 3600 s2
              (λ e. cc)
          ∙ touch_ne r laws t u k (channel_daily_key user channel (cal.day t)) 86400 s1 (λ e. cc)
          ∙ touch_self r laws t u k 86400 s le lt)

    channel_counted :
        t ≤ u
        → u < t + 86400
        → read_count r cal u
            (channel_daily_key user channel (cal.day t))
            (increment_all r cal t user channel event s)
          ≡ read_count r cal t (channel_daily_key user channel (cal.day t)) s + 1
    unfolding increment_all
    channel_counted le lt =
        let k = channel_daily_key user channel (cal.day t) in
        let s1 = touch r t (global_daily_key user (cal.day t)) 86400 s in
        let s2 = touch r t k 86400 s1 in
        ap to_count (
          laws.get-setex_ne t u k (cooldown_key user event) same_type_cooldown_seconds 1 counters
            (λ e. cc)
          ∙ touch_ne r laws t u k
              (category_hourly_key user (event_code_to_category event) (cal.hour t)) 3600 s2
              (λ e. cc)
          ∙ touch_self r laws t u k 86400 s1 le lt)
        ∙ ap (λ o. to_count o + 1)
            (touch_ne r laws t t k (global_daily_key user (cal.day t)) 86400 s (λ e. cc))

    category_counted :
        t ≤ u
        → u < t + 3600
        → read_count r cal u
            (category_hourly_key user (event_code_to_category event) (cal.hour t))
            (increment_all r cal t user channel event s)
          ≡ read_count r cal t
              (category_hourly_key user (event_code_to_category event) (cal.hour t))
              s
            + 1
    unfolding increment_all
    category_counted le lt =
        let k = category_hourly_key user (event_code_to_category event) (cal.hour t) in
        let s1 = touch r t (global_daily_key user (cal.day t)) 86400 s in
        let s2 = touch r t (channel_daily_key user channel (cal.day t)) 86400 s1 in
        ap to_count (
          laws.get-setex_ne t u k (cooldown_key user event) same_type_cooldown_seconds 1 counters
            (λ e. cc)
          ∙ touch_self r laws t u k 3600 s2 le lt)
        ∙ ap (λ o. to_count o + 1)
            (touch_ne r laws t t k (channel_daily_key user channel (cal.day t)) 86400 s1 (λ e. cc)
              ∙ touch_ne r laws t t k (global_daily_key user (cal.day t)) 86400 s (λ e. cc))

  module _ (t u : ℕ) (user channel event : String) (s : r.Store) where
    -- A call in the dimension raises its counter by one, for as long as its slot lasts.
    pub dimension_counted :
        (d : Dimension)
        → lies_in d channel event ≡ true
        → t ≤ u
        → u < t + ttl_of d
        → read_count r cal u
            (key_of d user (slot_of d cal t))
            (increment_all r cal t user channel event s)
          ≡ read_count r cal t (key_of d user (slot_of d cal t)) s + 1
    dimension_counted global here le lt = global_counted t u user channel event s le lt
    dimension_counted (of_channel c) here le lt =
        subst
          (λ (k : String).
            read_count r cal u (channel_daily_key user k (cal.day t))
              (increment_all r cal t user channel event s)
            ≡ read_count r cal t (channel_daily_key user k (cal.day t)) s + 1)
          ((eq_iff channel c).0 here) (channel_counted t u user channel event s le lt)
    dimension_counted (of_category c) here le lt =
        subst
          (λ (k : String).
            read_count r cal u (category_hourly_key user k (cal.hour t))
              (increment_all r cal t user channel event s)
            ≡ read_count r cal t (category_hourly_key user k (cal.hour t)) s + 1)
          ((eq_iff (event_code_to_category event) c).0 here)
          (category_counted t u user channel event s le lt)

    -- A call of another user, in another slot, or out of the dimension leaves it alone.
    pub dimension_ne :
        (d : Dimension) (other : String) (slot : ℕ)
        → (str_eq user other && (lies_in d channel event && slot_of d cal t == slot)) ≡ false
        → r.get u (key_of d other slot) (increment_all r cal t user channel event s)
          ≡ r.get u (key_of d other slot) s
    dimension_ne global other slot ne =
        increment_all-ne t u user channel event s (global_daily_key other slot)
          (λ e. ground (arith, eq_iff user other)) (λ e. cc) (λ e. cc) (λ e. cc)
    dimension_ne (of_channel c) other slot ne =
        increment_all-ne t u user channel event s (channel_daily_key other c slot) (λ e. cc)
          (λ e. ground (arith, eq_iff user other, eq_iff channel c)) (λ e. cc) (λ e. cc)
    dimension_ne (of_category c) other slot ne =
        increment_all-ne t u user channel event s (category_hourly_key other c slot) (λ e. cc)
          (λ e. cc)
          (λ e. ground (arith, eq_iff user other, eq_iff (event_code_to_category event) c))
          (λ e. cc)
