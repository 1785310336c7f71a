-- ===== src/Redis/RateLimit/Blocked.antt =====
-- A client that is over the limit of a minute, and goes on asking.
use financial_notification_p.Prelude.{
  ℕ, ◌≡◌, ◌≢◌, ◌≤◌, ◌<◌, ◌+◌, ap, ◌∙◌, String, true, false, mem_text, arith,
}
use financial_notification_p.Prelude.{List, [], ◌∷◌, subst, sym}
use financial_notification_p.Core.Config.{Settings}
use financial_notification_p.Core.Exceptions.{err, http_exception}
use financial_notification_p.Redis.Server.{Redis, RedisLaws, rl_min, rl_hour, to_count}
use financial_notification_p.Redis.RateLimit.{open_paths, count_request, minute_count, rate_limit}

min_ne_hour : (ip : String) → rl_min ip ≢ rl_hour ip
min_ne_hour ip e = cc e

module _ (r : Redis) (laws : RedisLaws r) (c : Settings) where
  -- Within a minute of a request, the next one is counted on top of it.
  minute_count-next :
      (t u : ℕ) (ip : String) (s : r.Store)
      → t ≤ u
      → u < t + 60
      → minute_count r c u ip (count_request r c t ip s) ≡ minute_count r c t ip s + 1
  unfolding minute_count count_request
  minute_count-next t u ip s le lt =
      let s0 = r.incr t (rl_min ip) s in
      let s1 = r.expire t (rl_min ip) 60 s0 in
      let s2 = r.incr t (rl_hour ip) s1 in
      ap to_count (laws.get-incr_self u (rl_min ip) (r.expire t (rl_hour ip) 3600 s2))
      ∙ ap (λ o. to_count o + 1)
          (laws.get-expire_ne t u (rl_min ip) (rl_hour ip) 3600 s2 (min_ne_hour ip)
            ∙ laws.get-incr_ne t u (rl_min ip) (rl_hour ip) s1 (min_ne_hour ip)
            ∙ laws.get-expire_live t u (rl_min ip) 60 s0 le lt)

  -- Further requests, on paths that are limited, each within a minute of the one before it.
  abbrev pub GoesOn : ℕ → List (ℕ × String) → Type 0
  GoesOn t [] = Unit
  GoesOn t ((u, path) ∷ requests) =
      (t ≤ u) × (u < t + 60) × (mem_text path open_paths ≡ false) × GoesOn u requests

  -- Requests that are all refused, one after the other.
  abbrev pub Refused : String → List (ℕ × String) → r.Store → Type 0
  Refused ip [] s = Unit
  Refused ip ((t, path) ∷ requests) s =
      ((rate_limit r c t ip path s).0 ≡ err (http_exception 429))
      × Refused ip requests (rate_limit r c t ip path s).1

  rate_limit-refuses :
      (t : ℕ) (ip path : String) (s : r.Store)
      → c.rate_limit_enabled ≡ true
      → mem_text path open_paths ≡ false
      → c.rate_limit_requests_per_minute < minute_count r c t ip s
      → rate_limit r c t ip path s ≡ (err (http_exception 429), count_request r c t ip s)
  unfolding rate_limit
  rate_limit-refuses t ip path s on limited over = ground arith

  -- For a server as documented and a limit that is on: a client whose request puts it over the limit of
  -- a minute is refused that request, and all further ones for as long as each follows within a minute of
  -- the one before it, since every request renews the expiry of the counter and raises it.
  pub rate_limit-stays_blocked :
      (t : ℕ) (ip path : String) (requests : List (ℕ × String)) (s : r.Store)
      → c.rate_limit_enabled ≡ true
      → mem_text path open_paths ≡ false
      → c.rate_limit_requests_per_minute < minute_count r c t ip s
      → GoesOn t requests
      → Refused ip ((t, path) ∷ requests) s
  rate_limit-stays_blocked t ip path [] s on limited over goes_on =
      (ap (λ q. q.0) (rate_limit-refuses t ip path s on limited over), tt)
  rate_limit-stays_blocked t ip path ((u, next) ∷ requests) s on limited over
        (le, lt, also_limited, goes_on) =
      let refused = rate_limit-refuses t ip path s on limited over in
      let one_more = minute_count-next t u ip s le lt in
      (
        ap (λ q. q.0) refused,
        subst (Refused ip ((u, next) ∷ requests)) (sym (ap (λ q. q.1) refused)) (
            rate_limit-stays_blocked u ip next requests (count_request r c t ip s) on also_limited
              (omega (arith, one_more)) goes_on),
      )
