-- ===== src/Redis/Server/Memory.antt =====
-- A server that meets the laws: each key holds a value and the instant at which it expires.
use financial_notification_p.Prelude.{
  ℕ, ◌+◌, ◌/◌, ◌≤◌, ◌<◌, ◌≡◌, ◌≢◌, refl, ap, Bool, true, false, ◌&&◌, Option, none, some, leb, ◌==◌,
  str_eq, eq_iff, eq_refl, if◌then◌else◌, arith,
}
use financial_notification_p.Core.Constants.{channel_eq, channel_eq_refl, channel_eq_sound}
use financial_notification_p.Redis.Server.{
  Key, Redis, RedisLaws, Calendar, CalendarLaws, to_count, dnd_cache, freq_cap_hourly,
  freq_cap_daily, freq_cap_weekly, global_daily_key, channel_daily_key, category_hourly_key,
  cooldown_key, rl_min, rl_hour,
}

abbrev pub key_eq : Key → Key → Bool
key_eq (dnd_cache a) (dnd_cache b) = str_eq a b
key_eq (freq_cap_hourly u c h) (freq_cap_hourly v d i) = u == v && channel_eq c d && h == i
key_eq (freq_cap_daily u c h) (freq_cap_daily v d i) = u == v && channel_eq c d && h == i
key_eq (freq_cap_weekly u c h) (freq_cap_weekly v d i) = u == v && channel_eq c d && h == i
key_eq (global_daily_key u h) (global_daily_key v i) = str_eq u v && h == i
key_eq (channel_daily_key u c h) (channel_daily_key v d i) = str_eq u v && str_eq c d && h == i
key_eq (category_hourly_key u c h) (category_hourly_key v d i) = str_eq u v && str_eq c d && h == i
key_eq (cooldown_key u e) (cooldown_key v f) = str_eq u v && str_eq e f
key_eq (rl_min a) (rl_min b) = str_eq a b
key_eq (rl_hour a) (rl_hour b) = str_eq a b
key_eq _ _ = false

key_eq_refl : (k : Key) → key_eq k k ≡ true
key_eq_refl (dnd_cache a) = eq_refl a
key_eq_refl (freq_cap_hourly u c h) = simp (channel_eq_refl) (ground arith)
key_eq_refl (freq_cap_daily u c h) = simp (channel_eq_refl) (ground arith)
key_eq_refl (freq_cap_weekly u c h) = simp (channel_eq_refl) (ground arith)
key_eq_refl (global_daily_key u h) = simp (eq_refl) (ground arith)
key_eq_refl (channel_daily_key u c h) = simp (eq_refl) (ground arith)
key_eq_refl (category_hourly_key u c h) = simp (eq_refl) (ground arith)
key_eq_refl (cooldown_key u e) = simp (eq_refl)
key_eq_refl (rl_min a) = eq_refl a
key_eq_refl (rl_hour a) = eq_refl a

key_eq_sound : (j k : Key) → key_eq j k ≡ true → j ≡ k
key_eq_sound (dnd_cache a) (dnd_cache b) h = ap dnd_cache ((eq_iff a b).0 h)
key_eq_sound (freq_cap_hourly u c i) (freq_cap_hourly v d j) h =
    ground (arith, channel_eq_sound c d)
key_eq_sound (freq_cap_daily u c i) (freq_cap_daily v d j) h = ground (arith, channel_eq_sound c d)
key_eq_sound (freq_cap_weekly u c i) (freq_cap_weekly v d j) h =
    ground (arith, channel_eq_sound c d)
key_eq_sound (global_daily_key u i) (global_daily_key v j) h = ground (arith, eq_iff u v)
key_eq_sound (channel_daily_key u c i) (channel_daily_key v d j) h =
    ground (arith, eq_iff u v, eq_iff c d)
key_eq_sound (category_hourly_key u c i) (category_hourly_key v d j) h =
    ground (arith, eq_iff u v, eq_iff c d)
key_eq_sound (cooldown_key u e) (cooldown_key v f) h = ground (arith, eq_iff u v, eq_iff e f)
key_eq_sound (rl_min a) (rl_min b) h = ap rl_min ((eq_iff a b).0 h)
key_eq_sound (rl_hour a) (rl_hour b) h = ap rl_hour ((eq_iff a b).0 h)
key_eq_sound _ _ h = cc

abbrev pub Cells : Type 0
Cells = Key → Option (ℕ × Option ℕ)

abbrev live : ℕ → Option (ℕ × Option ℕ) → Option (ℕ × Option ℕ)
live t none = none
live t (some (v, none)) = some (v, none)
live t (some (v, some e)) = if leb e t then none else some (v, some e)

abbrev value : Option (ℕ × Option ℕ) → Option ℕ
value none = none
value (some (v, _)) = some v

abbrev bump : Option (ℕ × Option ℕ) → Option (ℕ × Option ℕ)
bump none = some (1, none)
bump (some (v, e)) = some (v + 1, e)

abbrev until : ℕ → Option (ℕ × Option ℕ) → Option (ℕ × Option ℕ)
until e none = none
until e (some (v, _)) = some (v, some e)

abbrev write : Key → Option (ℕ × Option ℕ) → Cells → Cells
write k c s j = if key_eq j k then c else s j

abbrev pub memory : Redis
memory = record {
  Store = Cells;
  get = λ t k s. value (live t (s k));
  incr = λ t k s. write k (bump (live t (s k))) s;
  expire = λ t k ttl s. write k (until (t + ttl) (live t (s k))) s;
  setex = λ t k ttl v s. write k (some (v, some (t + ttl))) s;
  delete = λ k s. write k none s;
  delete_matching = λ p s k. if p k then none else s k;
}

abbrev pub empty : Cells
empty k = none

pub write_ne : (j k : Key) (c : Option (ℕ × Option ℕ)) (s : Cells) → j ≢ k → write k c s j ≡ s j
write_ne j k c s ne = ground (arith, key_eq_sound j k)

pub write_self : (k : Key) (c : Option (ℕ × Option ℕ)) (s : Cells) → write k c s k ≡ c
write_self k c s = rw (key_eq_refl k)

value-bump :
    (t : ℕ) (c : Option (ℕ × Option ℕ))
    → value (live t (bump (live t c))) ≡ some (to_count (value (live t c)) + 1)
value-bump t none = refl
value-bump t (some (v, none)) = refl
value-bump t (some (v, some e)) = ground arith

value-until-live :
    (t u ttl : ℕ) (c : Option (ℕ × Option ℕ))
    → t ≤ u
    → u < t + ttl
    → value (live u (until (t + ttl) (live t c))) ≡ value (live t c)
value-until-live t u ttl none h l = refl
value-until-live t u ttl (some (v, none)) h l = ground arith
value-until-live t u ttl (some (v, some e)) h l = ground arith

value-until_dead :
    (t u ttl : ℕ) (c : Option (ℕ × Option ℕ))
    → t + ttl ≤ u
    → value (live u (until (t + ttl) (live t c))) ≡ none
value-until_dead t u ttl none h = refl
value-until_dead t u ttl (some (v, none)) h = ground arith
value-until_dead t u ttl (some (v, some e)) h = ground arith

if-value :
    (u : ℕ) (b : Bool) (c : Option (ℕ × Option ℕ))
    → value (live u (if b then none else c)) ≡ (if b then none else value (live u c))
if-value u true c = refl
if-value u false c = refl

pub memory-laws : RedisLaws memory
memory-laws = record {
  get-incr_self = λ t k s. rw write_self (value-bump t (s k));
  get-incr_ne =
      λ t u j k s ne. ap (λ c. value (live u c)) (write_ne j k (bump (live t (s k))) s ne);
  get-expire_live = λ t u k ttl s h l. rw write_self (value-until-live t u ttl (s k) h l);
  get-expire_dead = λ t u k ttl s h. rw write_self (value-until_dead t u ttl (s k) h);
  get-expire_ne = λ t u j k ttl s ne.
      ap (λ c. value (live u c)) (write_ne j k (until (t + ttl) (live t (s k))) s ne);
  get-setex_live = λ t u k ttl v s h l. rw write_self (ground arith);
  get-setex_dead = λ t u k ttl v s h. rw write_self (ground arith);
  get-setex_ne = λ t u j k ttl v s ne.
      ap (λ c. value (live u c)) (write_ne j k (some (v, some (t + ttl))) s ne);
  get-delete_matching = λ u k p s. if-value u (p k) (s k);
}

abbrev pub utc : Calendar
utc = record { hour = λ t. t / 3600; day = λ t. t / 86400; week = λ t. t / 86400 }

pub utc-laws : CalendarLaws utc
utc-laws = record {
  hour_span = λ t u e. omega arith;
  day_span = λ t u e. omega arith;
  week_span = λ t u e. omega arith;
}
