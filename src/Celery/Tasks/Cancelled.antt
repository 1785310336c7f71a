-- ===== src/Celery/Tasks/Cancelled.antt =====
-- The tasks that run for a row that is already cancelled.
use financial_notification_p.Prelude.{
  ℕ, ◌≡◌, refl, sym, subst, ◌||◌, some, [], ◌∷◌, ◌++◌, if◌then◌else◌,
}
use financial_notification_p.Core.Constants.{NotificationStatus, status_eq}
use financial_notification_p.Models.Rows.{Notification}
use financial_notification_p.Models.World.{World, send_notification_task}
use financial_notification_p.Redis.Server.{Redis}
use financial_notification_p.Repositories.Notifications.{get, update_status}
use financial_notification_p.Repositories.Notifications.Rows.{get-status_self}
use financial_notification_p.Celery.Tasks.{
  Provider, already, requeued, replied, raised, send_notification, send_found, retry_notification,
  set_status, record_reply, record_error,
}
use financial_notification_p.Celery.Tasks.Rows.{row, get-id}

module _ {r : Redis} where
  -- The sending task leaves a cancelled row alone, and does not call the provider.
  pub send-cancelled :
      (send : Provider) (id : ℕ) (w : World r) (n : Notification)
      → row id w ≡ some n
      → n.status ≡ NotificationStatus.cancelled
      → send_notification send id w ≡ (already NotificationStatus.cancelled, w)
  unfolding send_notification send_found
  send-cancelled send id w n found closed =
      rw (found, send_notification)
        (subst
          (λ s.
            (if status_eq s NotificationStatus.delivered || status_eq s NotificationStatus.cancelled
              then (already s, w)
              else elim (send w.clock n) [
                | replied result ↦
                    record_reply n result (set_status n.id NotificationStatus.processing (λ m. m) w)
                | raised error ↦ record_error n.id error w
              ])
            ≡ (already NotificationStatus.cancelled, w))
          (sym closed) refl)

  -- The retrying task does not look at the status: a row of any status is put back to pending, and a
  -- sending task is queued for it.
  pub retry_notification-revives :
      (id : ℕ) (w : World r) (n : Notification)
      → row id w ≡ some n
      → (let (result, w') = retry_notification id w in
          (result ≡ requeued)
          × (row id w' ≡ some (record n { status = NotificationStatus.pending }))
          × (w'.tasks ≡ w.tasks ++ send_notification_task id ∷ []))
  unfolding retry_notification
  retry_notification-revives id w n found =
      rw (found, retry_notification)
        (
          refl,
          subst
              (λ i.
                get id (update_status i NotificationStatus.pending (λ m. m) w.db.notifications)
                ≡ some (record n { status = NotificationStatus.pending }))
              (sym (get-id id w.db.notifications found))
              (get-status_self id NotificationStatus.pending (λ m. m) w.db.notifications n
                (λ m. refl) found),
          refl,
        )
