-- ===== src/Celery/Tasks/Rows.antt =====
-- The row of a notification through the writes of a task.
use mathlib.Core.Option
use financial_notification_p.Prelude.{
  ℕ, ◌≡◌, ◌≢◌, refl, ◌∙◌, false, ◌||◌, Option, some, List, [], ◌∷◌, arith,
}
use financial_notification_p.Core.Constants.{NotificationStatus, status_eq}
use financial_notification_p.Models.Rows.{Notification}
use financial_notification_p.Models.World.{World}
use financial_notification_p.Redis.Server.{Redis}
use financial_notification_p.Repositories.Notifications.{get, update_status}
use financial_notification_p.Repositories.Notifications.Rows.{KeepsId, get-update_self}
use financial_notification_p.Celery.Tasks.{
  ChannelResult, replied, Provider, set_status, record_reply, send_notification, send_found,
}

pub get-id : (id : ℕ) (ns : List Notification) {n : Notification} → get id ns ≡ some n → n.id ≡ id
get-id id [] e = cc
get-id id (m ∷ ns) {n = n} e = ground (arith, get-id id ns {n = n})

-- The sending task goes on to the provider from any status but these two.
abbrev pub IsOpen : Notification → Type 0
IsOpen n = (n.status ≢ NotificationStatus.delivered) × (n.status ≢ NotificationStatus.cancelled)

pub not_closed :
    (s : NotificationStatus)
    → s ≢ NotificationStatus.delivered
    → s ≢ NotificationStatus.cancelled
    → (status_eq s NotificationStatus.delivered || status_eq s NotificationStatus.cancelled) ≡ false
not_closed NotificationStatus.delivered a b = absurd (a refl)
not_closed NotificationStatus.cancelled a b = absurd (b refl)
not_closed _ a b = refl

module _ {r : Redis} where
  abbrev pub row : ℕ → World r → Option Notification
  row id w = get id w.db.notifications

  pub row-set_status :
      (id : ℕ) (s : NotificationStatus) (f : Notification → Notification) (w : World r)
      → KeepsId f
      → row id (set_status id s f w)
        ≡ Option.map (λ n. let m = f n in record m { status = s }) (row id w)
  unfolding set_status update_status
  row-set_status id s f w k =
      get-update_self id (λ n. let m = f n in record m { status = s }) w.db.notifications k

  -- An open row goes to the provider.
  pub send_replied :
      (send : Provider) (n : Notification) (result : ChannelResult) (w : World r)
      → row n.id w ≡ some n
      → IsOpen n
      → send w.clock n ≡ replied result
      → send_notification send n.id w
        ≡ record_reply n result (set_status n.id NotificationStatus.processing (λ m. m) w)
  unfolding send_notification
  send_replied send n result w e o q =
      rw (e, send_notification) (rw (not_closed n.status o.0 o.1, send_found) (rw (q, send_found)))

  pub row_written :
      (n : Notification) (s : NotificationStatus) (f : Notification → Notification) (id : ℕ)
      (w : World r)
      → KeepsId f
      → row id w ≡ some n
      → row id (set_status id s f w) ≡ some (let m = f n in record m { status = s })
  row_written n s f id w k e = row-set_status id s f w k ∙ rw e
