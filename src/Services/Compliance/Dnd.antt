-- ===== src/Services/Compliance/Dnd.antt =====
-- The verdict on a number is remembered for a day.
use financial_notification_p.Prelude.{ℕ, ◌+◌, ◌≤◌, ◌<◌, ◌≡◌, String, true, false, none, arith}
use financial_notification_p.Core.Constants.{FinancialEventType, is_dnd_exempt_event}
use financial_notification_p.Core.Config.{Settings}
use financial_notification_p.Core.Exceptions.{ok}
use financial_notification_p.Redis.Server.{Redis, RedisLaws, dnd_cache}
use financial_notification_p.Services.External.{External}
use financial_notification_p.Services.Compliance.{
  check_dnd, check_dnd_registry, query_dnd_registry, dnd_cache_ttl,
}

module _ (r : Redis) (laws : RedisLaws r) where
  -- With the check enabled and a number without a cached verdict: a check for an event that is not
  -- exempt, during which the call to the registry fails, is remembered as a number that is not
  -- registered. For a day no message to it is held back, though the registry answers again and has
  -- the number on its list.
  dnd_failure_opens :
      (x y : External) (c : Settings) (now later : ℕ) (phone : String) (e f : FinancialEventType)
      (s : r.Store)
      → x.dnd_api now phone ≡ none
      → r.get now (dnd_cache phone) s ≡ none
      → c.trai_dnd_check_enabled ≡ true
      → is_dnd_exempt_event e ≡ false
      → now ≤ later
      → later < now + dnd_cache_ttl
      → (check_dnd r y c later phone f (check_dnd r x c now phone e s).1).0 ≡ ok tt
  unfolding check_dnd check_dnd_registry query_dnd_registry
  dnd_failure_opens x y c now later phone e f s down cold on ee le lt =
      ground (arith, laws.get-setex_live now later (dnd_cache phone) dnd_cache_ttl 0 s le lt)
