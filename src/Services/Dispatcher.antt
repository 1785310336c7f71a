-- ===== src/Services/Dispatcher.antt =====
-- app/services/notification_dispatcher.py: `NotificationDispatcher`.
use financial_notification_p.Prelude.{
  ℕ, zero, suc, String, Bool, true, false, ◌&&◌, ◌||◌, Option, none, some, List, [], ◌∷◌, truthy,
  if◌then◌else◌,
}
use financial_notification_p.Core.Constants.{
  NotificationChannel, NotificationStatus, SkipReason, sms, email, whatsapp, push, in_app,
  status_eq,
}
use financial_notification_p.Core.Config.{Settings}
use financial_notification_p.Core.Exceptions.{
  Exn, Result, ok, err, quiet_hours_error, dnd_registered_error, frequency_cap_exceeded,
}
use financial_notification_p.Models.Rows.{User, Notification}
use financial_notification_p.Models.Preference.{UserPreference}
use financial_notification_p.Models.World.{
  Db, World, Action, send_notification_task, pure, lift, modify_db, on_redis, apply_async, ◌>>=◌,
  ◌>>◌,
}
use financial_notification_p.Redis.Server.{Redis, Calendar}
use financial_notification_p.Redis.FrequencyCap.{Caps, check_and_increment}
use financial_notification_p.Repositories.Users.{get_user}
use financial_notification_p.Repositories.Notifications.{update_status}
use financial_notification_p.Services.External.{External}
use financial_notification_p.Services.Compliance.{check_quiet_hours, check_dnd}
pub mod Settles

-- `cap or None`, with 0 for a user without preferences
abbrev pub own_cap : ℕ → Option ℕ
own_cap zero = none
own_cap (suc n) = some (suc n)

abbrev pub own_caps : Option UserPreference → Caps
own_caps none = record { cap_hourly = none; cap_daily = none; cap_weekly = none }
own_caps (some p) = record {
  cap_hourly = own_cap p.frequency_cap_hourly;
  cap_daily = own_cap p.frequency_cap_daily;
  cap_weekly = own_cap p.frequency_cap_weekly;
}

-- `channel in (SMS, WHATSAPP)`
abbrev pub goes_by_phone : NotificationChannel → Bool
goes_by_phone sms = true
goes_by_phone email = false
goes_by_phone whatsapp = true
goes_by_phone push = false
goes_by_phone in_app = false

-- the reason for which an exception of the checks skips the notification; others are not caught
abbrev pub skip_reason_of : Exn → Option SkipReason
skip_reason_of quiet_hours_error = some SkipReason.quiet_hours
skip_reason_of dnd_registered_error = some SkipReason.dnd_registered
skip_reason_of frequency_cap_exceeded = some SkipReason.frequency_capped
skip_reason_of _ = none

module _ {r : Redis} (x : External) (cal : Calendar) (settings : Settings) where
  unfoldable pub quiet_hours_step : Notification → User → Action r (Unit {0})
  quiet_hours_step n user w = elim user.preferences [
    | none ↦ (ok tt, w)
    | some p ↦
        if p.quiet_hours_enabled
        then (
          check_quiet_hours x w.clock n.event_type p.quiet_hours_start p.quiet_hours_end
              user.timezone,
          w,
        )
        else (ok tt, w)
  ]

  unfoldable pub dnd_step : Notification → User → Action r (Unit {0})
  dnd_step n user w = elim user.phone [
    | none ↦ (ok tt, w)
    | some phone ↦
        if goes_by_phone n.channel && truthy phone
        then on_redis (λ now. check_dnd r x settings now phone n.event_type) w
        else (ok tt, w)
  ]

  unfoldable pub cap_step : Notification → User → Action r (Unit {0})
  cap_step n user =
      on_redis (λ now.
        check_and_increment r cal settings now user.id n.channel (own_caps user.preferences))

  -- the body of the `try`
  unfoldable pub compliance_checks : Notification → User → Action r (Unit {0})
  unfolding quiet_hours_step dnd_step cap_step
  compliance_checks n user = do quiet_hours_step n user; dnd_step n user; cap_step n user

  unfoldable pub set_row_status :
      Notification → NotificationStatus → (Notification → Notification) → Action r (Unit {0})
  set_row_status n status extra =
      modify_db (λ (db : Db). record db {
        notifications = update_status n.id status extra db.notifications;
      })

  unfoldable pub queue_it : Notification → Action r (Unit {0})
  unfolding set_row_status
  queue_it n = do
    set_row_status n NotificationStatus.queued (λ m. m)
    apply_async (send_notification_task n.id)

  -- the handlers of the `try`, and what follows it
  unfoldable pub settle : Notification → Result (Unit {0}) → Action r (Unit {0})
  unfolding queue_it set_row_status
  settle n (ok _) = queue_it n
  settle n (err e) = elim (skip_reason_of e) [
    | some reason ↦
        set_row_status n NotificationStatus.skipped (λ m. record m { skip_reason = some reason })
    | none ↦ lift (err e)
  ]

  unfoldable pub dispatch_to : Notification → User → Action r (Unit {0})
  unfolding compliance_checks settle
  dispatch_to n user w = let (result, w') = compliance_checks n user w in settle n result w'

  unfoldable pub dispatch : Notification → Action r (Unit {0})
  unfolding dispatch_to set_row_status
  dispatch n w =
      if status_eq n.status NotificationStatus.skipped
      then (ok tt, w)
      else elim (get_user n.user_id w.db.users) [
        | none ↦
            set_row_status n NotificationStatus.failed
              (λ m. record m { error_message = some "User not found" }) w
        | some user ↦ dispatch_to n user w
      ]
