-- ===== src/Api/Notifications/Lifecycle.antt =====
-- A cancelled notification, and the tasks that are still queued for it.
use financial_notification_p.Prelude.{
  ℕ, ◌≡◌, refl, sym, ap, subst, ◌∙◌, true, some, [], ◌∷◌, ◌++◌, arith,
}
use mathlib.Core.Option
use financial_notification_p.Core.Constants.{NotificationStatus}
use financial_notification_p.Core.Exceptions.{ok}
use financial_notification_p.Models.Rows.{Notification}
use financial_notification_p.Models.World.{World, send_notification_task}
use financial_notification_p.Redis.Server.{Redis}
use financial_notification_p.Repositories.Notifications.{get}
use financial_notification_p.Services.Auth.{CurrentUser, require_roles, managers}
use financial_notification_p.Celery.Tasks.{
  Provider, already, requeued, send_notification, retry_notification, set_status,
}
use financial_notification_p.Celery.Tasks.Rows.{row, row-set_status}
use financial_notification_p.Celery.Tasks.Cancelled.{send-cancelled, retry_notification-revives}
use financial_notification_p.Api.Notifications.{can_cancel, cancel_notification}

module _ {r : Redis} where
  cancels :
      (u : CurrentUser) (id : ℕ) (w : World r) (n : Notification)
      → require_roles managers u ≡ ok u
      → get id w.db.notifications ≡ some n
      → can_cancel n.status ≡ true
      → cancel_notification u id w ≡ (ok tt, set_status id NotificationStatus.cancelled (λ m. m) w)
  unfolding cancel_notification
  cancels u id w n allowed found open_ =
      rw (allowed, cancel_notification) (rw (found, cancel_notification) (ground arith))

  cancelled_row :
      (id : ℕ) (w : World r) (n : Notification)
      → get id w.db.notifications ≡ some n
      → row id (set_status id NotificationStatus.cancelled (λ m. m) w)
        ≡ some (record n { status = NotificationStatus.cancelled })
  cancelled_row id w n found =
      row-set_status id NotificationStatus.cancelled (λ m. m) w (λ m. refl)
      ∙ ap (Option.map (λ (n : Notification). record n { status = NotificationStatus.cancelled }))
          found

  -- A manager's request to cancel a notification that is neither delivered nor sent succeeds, and a
  -- sending task that runs after it does nothing, whatever the provider would have answered.
  pub cancel_notification-stops_send :
      (u : CurrentUser) (id : ℕ) (w : World r) (n : Notification) (send : Provider)
      → require_roles managers u ≡ ok u
      → get id w.db.notifications ≡ some n
      → can_cancel n.status ≡ true
      → (let (result, w') = cancel_notification u id w in
          (result ≡ ok tt)
          × (send_notification send id w' ≡ (already NotificationStatus.cancelled, w')))
  cancel_notification-stops_send u id w n send allowed found open_ =
      let done = cancels u id w n allowed found open_ in
      (
        ap (λ q. q.0) done,
        subst
            (λ (w' : World r).
              send_notification send id w' ≡ (already NotificationStatus.cancelled, w'))
            (sym (ap (λ q. q.1) done))
            (send-cancelled send id (set_status id NotificationStatus.cancelled (λ m. m) w)
              (record n { status = NotificationStatus.cancelled }) (cancelled_row id w n found)
              refl),
      )

  -- A retrying task that is still queued when the notification is cancelled undoes the cancellation:
  -- the row is pending again, and a sending task is queued for it.
  pub cancel_notification-undone_by_retry :
      (u : CurrentUser) (id : ℕ) (w : World r) (n : Notification)
      → require_roles managers u ≡ ok u
      → get id w.db.notifications ≡ some n
      → can_cancel n.status ≡ true
      → (let (result, w') = cancel_notification u id w in
          let (again, w'') = retry_notification id w' in
          (result ≡ ok tt)
          × (again ≡ requeued)
          × (row id w'' ≡ some (record n { status = NotificationStatus.pending }))
          × (w''.tasks ≡ w'.tasks ++ send_notification_task id ∷ []))
  cancel_notification-undone_by_retry u id w n allowed found open_ =
      let done = cancels u id w n allowed found open_ in
      let Undone : World r → Type 0 = λ w'.
        let (again, w'') = retry_notification id w' in
        (again ≡ requeued)
        × (row id w'' ≡ some (record n { status = NotificationStatus.pending }))
        × (w''.tasks ≡ w'.tasks ++ send_notification_task id ∷ []) in
      let (again, pending_row, queued) = subst Undone (sym (ap (λ q. q.1) done)) (
        retry_notification-revives id (set_status id NotificationStatus.cancelled (λ m. m) w)
          (record n { status = NotificationStatus.cancelled }) (cancelled_row id w n found)) in
      (ap (λ q. q.0) done, again, pending_row, queued)
