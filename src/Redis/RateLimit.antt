-- ===== src/Redis/RateLimit.antt =====
-- app/middleware/rate_limit.py. The reply of INCR is the counter that
-- a read right after it finds.
use financial_notification_p.Prelude.{
  ℕ, String, Bool, true, false, not, ◌||◌, List, [], ◌∷◌, ltb, mem_text, if◌then◌else◌,
}
use financial_notification_p.Core.Config.{Settings}
use financial_notification_p.Core.Exceptions.{Result, ok, err, http_exception}
use financial_notification_p.Redis.Server.{Key, Redis, rl_min, rl_hour, to_count}
pub mod Blocked

abbrev pub open_paths : List String
open_paths = "/health" ∷ "/metrics" ∷ "/docs" ∷ "/openapi.json" ∷ "/redoc" ∷ []

module _ (r : Redis) (c : Settings) where
  -- The pipeline: each counter is raised, and its expiry renewed.
  unfoldable pub count_request : ℕ → String → r.Store → r.Store
  count_request t ip s =
      let s1 = r.expire t (rl_min ip) 60 (r.incr t (rl_min ip) s) in
      r.expire t (rl_hour ip) 3600 (r.incr t (rl_hour ip) s1)

  unfoldable pub minute_count : ℕ → String → r.Store → ℕ
  minute_count t ip s = to_count (r.get t (rl_min ip) (r.incr t (rl_min ip) s))

  unfoldable pub hour_count : ℕ → String → r.Store → ℕ
  hour_count t ip s = to_count (
      r.get t (rl_hour ip)
        (r.incr t (rl_hour ip) (r.expire t (rl_min ip) 60 (r.incr t (rl_min ip) s))))

  -- `ok` where the request is passed on
  unfoldable pub rate_limit : ℕ → String → String → r.Store → Result (Unit {0}) × r.Store
  rate_limit t ip path s =
      if not c.rate_limit_enabled
      then (ok tt, s)
      else if mem_text path open_paths
      then (ok tt, s)
      else (
        (if ltb c.rate_limit_requests_per_minute (minute_count t ip s)
              || ltb c.rate_limit_requests_per_hour (hour_count t ip s)
            then err (http_exception 429)
            else ok tt),
        count_request t ip s,
      )

  -- `rate_limit_middleware`: where the call of Redis fails, the request is passed on uncounted.
  unfoldable pub rate_limit_middleware :
      (answers : Bool) → ℕ → String → String → r.Store → Result (Unit {0}) × r.Store
  unfolding rate_limit
  rate_limit_middleware true t ip path s = rate_limit t ip path s
  rate_limit_middleware false t ip path s = (ok tt, s)
