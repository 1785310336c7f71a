-- ===== src/Redis/SpecCap.antt =====
-- app/redis/frequency_cap_v2.py: `SpecFrequencyCapService`, over a server and a calendar. The clock is
-- read once in a call, and a pipeline runs at one instant.
use financial_notification_p.Prelude.{
  ℕ, ◌+◌, String, Bool, true, false, not, ◌&&◌, ◌||◌, Option, none, some, List, [], ◌∷◌, map, leb,
  ◌==◌, lookup, get_or, before, is_some, str_eq, if◌then◌else◌,
}
use financial_notification_p.Core.Exceptions.{
  Result, ok, err, raise_if, ◌>>◌, frequency_cap_exceeded,
}
use financial_notification_p.Redis.Server.{
  Key, Redis, Calendar, to_count, global_daily_key, channel_daily_key, category_hourly_key,
  cooldown_key,
}
pub mod Counting
pub mod Calls
pub mod Bounds
pub mod Cooldown

abbrev pub global_daily_cap : ℕ
global_daily_cap = 12

abbrev pub channel_daily_caps : List (String × ℕ)
channel_daily_caps = ("sms", 5) ∷ ("push", 8) ∷ ("email", 3) ∷ ("whatsapp", 5) ∷ ("in_app", 50) ∷ []

abbrev pub category_hourly_cap : ℕ
category_hourly_cap = 3

abbrev pub same_type_cooldown_seconds : ℕ
same_type_cooldown_seconds = 900

abbrev pub weekly_digest_threshold : ℕ
weekly_digest_threshold = 8

-- `event_code.split("-")[0]`, which is the whole code where it has no dash
unfoldable pub event_code_to_category : String → String
event_code_to_category = before b'-'

-- `CHANNEL_DAILY_CAPS.get(channel, 10)`
unfoldable pub channel_limit : String → ℕ
channel_limit channel = get_or (lookup channel channel_daily_caps) 10

pub data CapMetadata : Type 0 where
  bypassed : CapMetadata
  counted : (global_count channel_count category_count : ℕ) → CapMetadata

pub record CapStatus : Type 0 where
  pub global_daily : ℕ × ℕ
  pub channels : List (String × (ℕ × ℕ))
  pub suggest_digest : Bool

-- The keys that `cap:*:{user_id}:*` matches: the star spans any number of parts.
unfoldable pub matches_user : String → Key → Bool
matches_user user (global_daily_key u day) = str_eq u user
matches_user user (channel_daily_key u channel day) = str_eq u user || str_eq channel user
matches_user user (category_hourly_key u category hour) = str_eq u user || str_eq category user
matches_user user (cooldown_key u event) = str_eq u user
matches_user user _ = false

-- The checks in their order, on what the first pipeline has read.
unfoldable pub check : Bool → ℕ → ℕ → ℕ → ℕ → Bool → Result (Unit {0})
check mandatory limit global_count channel_count category_count in_cooldown =
    raise_if (leb global_daily_cap global_count) frequency_cap_exceeded
    >> raise_if (not mandatory && leb limit channel_count) frequency_cap_exceeded
    >> raise_if (leb category_hourly_cap category_count) frequency_cap_exceeded
    >> raise_if in_cooldown frequency_cap_exceeded

module _ (r : Redis) (cal : Calendar) where
  open r use {Store, get, incr, expire, setex, delete_matching}

  abbrev pub read_count : ℕ → Key → Store → ℕ
  read_count t k s = to_count (get t k s)

  unfoldable pub increment_all : ℕ → String → String → String → Store → Store
  increment_all t user channel event s =
      let gk = global_daily_key user (cal.day t) in
      let ck = channel_daily_key user channel (cal.day t) in
      let catk = category_hourly_key user (event_code_to_category event) (cal.hour t) in
      let s1 = expire t gk 86400 (incr t gk s) in
      let s2 = expire t ck 86400 (incr t ck s1) in
      let s3 = expire t catk 3600 (incr t catk s2) in
      setex t (cooldown_key user event) same_type_cooldown_seconds 1 s3

  -- behind the bypass of critical events
  unfoldable pub check_all : ℕ → String → String → String → Bool → Store → Result (Unit {0})
  unfolding check
  check_all t user channel event mandatory s =
      check mandatory (channel_limit channel) (read_count t (global_daily_key user (cal.day t)) s)
        (read_count t (channel_daily_key user channel (cal.day t)) s)
        (read_count t (category_hourly_key user (event_code_to_category event) (cal.hour t)) s)
        (is_some (get t (cooldown_key user event) s))

  -- the counts that a call answers with
  unfoldable pub metadata : ℕ → String → String → String → Store → CapMetadata
  metadata t user channel event s =
      counted (read_count t (global_daily_key user (cal.day t)) s + 1)
        (read_count t (channel_daily_key user channel (cal.day t)) s + 1)
        (read_count t (category_hourly_key user (event_code_to_category event) (cal.hour t)) s + 1)

  unfoldable pub check_and_increment :
      ℕ → String → String → String → Bool → Bool → Store → Result CapMetadata × Store
  check_and_increment t user channel event critical mandatory s =
      if critical
      then (ok bypassed, increment_all t user channel event s)
      else elim (check_all t user channel event mandatory s) [
        | err e ↦ (err e, s)
        | ok _ ↦ (ok (metadata t user channel event s), increment_all t user channel event s)
      ]

  unfoldable pub get_user_cap_status : ℕ → String → Store → CapStatus
  get_user_cap_status t user s =
      let global_count = read_count t (global_daily_key user (cal.day t)) s in
      record {
        global_daily = (global_count, global_daily_cap);
        channels =
            map
              (λ (c : String × ℕ).
                (c.0, (read_count t (channel_daily_key user c.0 (cal.day t)) s, c.1)))
              channel_daily_caps;
        suggest_digest = leb weekly_digest_threshold global_count;
      }

  unfoldable pub reset_user_caps : String → Store → Store
  reset_user_caps user s = delete_matching (matches_user user) s
