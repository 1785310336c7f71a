-- ===== src/Services/Compliance.antt =====
-- app/services/compliance_service.py: quiet hours and the do-not-disturb registry.
use financial_notification_p.Prelude.{
  ℕ, ◌+◌, String, Bool, true, false, ◌&&◌, ◌||◌, not, Option, none, some, get_or, ltb, leb, ◌==◌,
  str_eq, truthy, if◌then◌else◌,
}
use financial_notification_p.Core.Constants.{
  FinancialEventType, is_critical_event, is_dnd_exempt_event,
}
use financial_notification_p.Core.Config.{Settings}
use financial_notification_p.Core.Exceptions.{
  Result, ok, err, raise_if, quiet_hours_error, dnd_registered_error, unknown_time_zone_error,
}
use financial_notification_p.Redis.Server.{Key, Redis, dnd_cache}
use financial_notification_p.Services.External.{External}
pub mod QuietHours
pub mod Dnd

abbrev pub dnd_cache_ttl : ℕ
dnd_cache_ttl = 86400

-- the test on the hour, with both forms of the interval
unfoldable pub in_quiet : ℕ → ℕ → ℕ → Bool
in_quiet quiet_hours_start quiet_hours_end local_hour =
    if ltb quiet_hours_end quiet_hours_start
    then leb quiet_hours_start local_hour || ltb local_hour quiet_hours_end
    else leb quiet_hours_start local_hour && ltb local_hour quiet_hours_end

unfoldable pub check_quiet_hours :
    External → ℕ → FinancialEventType → ℕ → ℕ → String → Result (Unit {0})
check_quiet_hours x now event_type quiet_hours_start quiet_hours_end timezone_str =
    if is_critical_event event_type then ok tt else elim (x.local_hour timezone_str now) [
      | none ↦ err unknown_time_zone_error
      | some hour ↦ raise_if (in_quiet quiet_hours_start quiet_hours_end hour) quiet_hours_error
    ]

-- A Boolean goes through the cache as JSON.
abbrev pub dump_flag : Bool → ℕ
dump_flag true = 1
dump_flag false = 0

abbrev pub load_flag : ℕ → Bool
load_flag n = not (n == 0)

unfoldable pub query_dnd_registry : External → Settings → ℕ → String → Bool
query_dnd_registry x settings now phone =
    if not (truthy settings.trai_dnd_api_url) || not (truthy settings.trai_dnd_api_key)
    then false
    else elim (x.dnd_api now phone) [
      | none ↦ false
      | some (status_code, is_dnd) ↦ if status_code == 200 then get_or is_dnd false else false
    ]

module _ (r : Redis) (x : External) (settings : Settings) where
  -- the part behind the two early returns, with a cache
  unfoldable pub check_dnd_registry : ℕ → String → r.Store → Result (Unit {0}) × r.Store
  check_dnd_registry now phone s = elim (r.get now (dnd_cache phone) s) [
    | some cached ↦ (raise_if (load_flag cached) dnd_registered_error, s)
    | none ↦
        let is_dnd = query_dnd_registry x settings now phone in
        (
          raise_if is_dnd dnd_registered_error,
          r.setex now (dnd_cache phone) dnd_cache_ttl (dump_flag is_dnd) s,
        )
  ]

  unfoldable pub check_dnd : ℕ → String → FinancialEventType → r.Store → Result (Unit {0}) × r.Store
  check_dnd now phone event_type s =
      if is_dnd_exempt_event event_type
      then (ok tt, s)
      else if not settings.trai_dnd_check_enabled
      then (ok tt, s)
      else check_dnd_registry now phone s
