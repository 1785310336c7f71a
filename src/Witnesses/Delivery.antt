-- ===== src/Witnesses/Delivery.antt =====
-- Sending, retrying, cancelling, receipts and dead letters.
use financial_notification_p.Prelude.{
  ℕ, ◌≡◌, ◌≢◌, ◌+◌, refl, true, false, none, some, ◌⊎◌, [], ◌∷◌, ◌++◌, leb, if◌then◌else◌,
}
use financial_notification_p.Core.Constants.{NotificationStatus, DeliveryStatus, UserRole}
use financial_notification_p.Core.Exceptions.{ok, err, http_exception}
use financial_notification_p.Models.Rows.{Notification, DeadLetterQueue}
use financial_notification_p.Models.World.{send_notification_task}
use financial_notification_p.Repositories.Notifications.{get}
use financial_notification_p.Services.DeliveryTracking.{handle_delivery_receipt, receipt_log}
use financial_notification_p.Services.DeliveryTracking.Receipts.{
  Settles, handle_delivery_receipt-row,
}
use financial_notification_p.Services.Auth.{CurrentUser, require_roles, managers, admins}
use financial_notification_p.Celery.Tasks.{
  Provider, replied, raised, already, requeued, retry_delay, send_notification, retry_notification,
}
use financial_notification_p.Celery.Tasks.Rows.{row, IsOpen}
use financial_notification_p.Celery.Tasks.Send.{send_raised}
use financial_notification_p.Celery.Tasks.Retry.{Stands, rounds, rejecting, dies_exhausted}
use financial_notification_p.Celery.Tasks.Replied.{Settled, send_notification-Settled}
use financial_notification_p.Api.Notifications.{can_cancel, cancel_notification}
use financial_notification_p.Api.Notifications.Lifecycle.{
  cancel_notification-stops_send, cancel_notification-undone_by_retry,
}
use financial_notification_p.Api.Dlq.{get_entry, retry_dlq_entry}
use financial_notification_p.Api.Dlq.Resolution.{IsRetried, retry_dlq_entry-once}
use financial_notification_p.Witnesses.Fixtures.{first_row, world_with, rejected, taken}

first_row-IsOpen : IsOpen first_row
first_row-IsOpen = (λ e. cc e, λ e. cc e)

abbrev accepts : Provider
accepts t n = replied taken

abbrev rejects : Provider
rejects t n = replied rejected

abbrev raises : Provider
raises t n = raised "timeout"

send_notification-Settled_example :
    Settled rejected first_row
      (world_with first_row)
      (send_notification rejects 3 (world_with first_row))
      false
      (leb 3 (0 + 1))
send_notification-Settled_example =
    send_notification-Settled rejects first_row rejected (world_with first_row) refl
      first_row-IsOpen refl

send_raised_example :
    let w = world_with first_row in
    let w' = (send_notification raises 3 w).1 in
    let k = 0 + 1 in
    (row 3 w'
      ≡ some (
          if leb 3 k
          then record first_row { status = NotificationStatus.dead; error_message = some "timeout" }
          else record first_row {
            status = NotificationStatus.retrying;
            retry_count = k;
            next_retry_at = some (w.clock + retry_delay k);
            error_message = some "timeout";
          }))
    × (w'.tasks ≡ w.tasks)
    × (w'.db.delivery_logs ≡ w.db.delivery_logs)
send_raised_example =
    send_raised raises first_row "timeout" (world_with first_row) refl first_row-IsOpen refl

-- A row that waits for its first retry.
abbrev waiting : Notification
waiting = record first_row { status = NotificationStatus.retrying }

waiting-Stands : Stands 3 NotificationStatus.retrying 0 3 (world_with waiting)
waiting-Stands = (waiting, refl, refl, refl, refl, refl)

dies_exhausted_example :
    Stands 3 NotificationStatus.retrying 1 3
      (rounds (rejecting (λ t n. rejected)) 3 (1 ∷ []) (world_with waiting))
    × Stands 3 NotificationStatus.dead 3 3
        (rounds (rejecting (λ t n. rejected)) 3 (1 ∷ 2 ∷ 3 ∷ []) (world_with waiting))
dies_exhausted_example =
    dies_exhausted (λ t n. rejected) 3 0 3 (1 ∷ []) 2 (3 ∷ []) (world_with waiting) (λ t n. refl)
      waiting-Stands refl

handle_delivery_receipt-row_example :
    let w = world_with first_row in
    let (result, w') = handle_delivery_receipt "twilio" "m3" DeliveryStatus.failed [] w in
    (result ≡ ok tt)
    × Settles DeliveryStatus.failed first_row w'.db.notifications
    × ((j : ℕ) → j ≢ 3 → get j w'.db.notifications ≡ get j w.db.notifications)
    × (w'.db.delivery_logs
        ≡ w.db.delivery_logs
          ++ receipt_log w.clock "twilio" "m3" DeliveryStatus.failed first_row ∷ [])
handle_delivery_receipt-row_example =
    handle_delivery_receipt-row "twilio" "m3" DeliveryStatus.failed [] (world_with first_row)
      first_row refl refl

abbrev manager : CurrentUser
manager = record { user_id = 7; role = UserRole.manager }

manager_allowed : require_roles managers manager ≡ ok manager
unfolding require_roles
manager_allowed = refl

open_to_cancel : can_cancel first_row.status ≡ true
unfolding can_cancel
open_to_cancel = refl

cancel_notification-stops_send_example :
    let w = world_with first_row in
    let (result, w') = cancel_notification manager 3 w in
    (result ≡ ok tt) × (send_notification accepts 3 w' ≡ (already NotificationStatus.cancelled, w'))
cancel_notification-stops_send_example =
    cancel_notification-stops_send manager 3 (world_with first_row) first_row accepts
      manager_allowed refl open_to_cancel

cancel_notification-undone_by_retry_example :
    let w = world_with first_row in
    let (result, w') = cancel_notification manager 3 w in
    let (again, w'') = retry_notification 3 w' in
    (result ≡ ok tt)
    × (again ≡ requeued)
    × (row 3 w'' ≡ some (record first_row { status = NotificationStatus.pending }))
    × (w''.tasks ≡ w'.tasks ++ send_notification_task 3 ∷ [])
cancel_notification-undone_by_retry_example =
    cancel_notification-undone_by_retry manager 3 (world_with first_row) first_row manager_allowed
      refl open_to_cancel

abbrev administrator : CurrentUser
administrator = record { user_id = 7; role = UserRole.admin }

retry_dlq_entry-once_example :
    let w = world_with first_row in
    ((require_roles admins administrator ≡ err (http_exception 403))
      × (retry_dlq_entry administrator 5 w ≡ (err (http_exception 403), w)))
    ⊎ ((require_roles admins administrator ≡ ok administrator)
        × (get_entry 5 w.db.dead_letters ≡ none)
        × (retry_dlq_entry administrator 5 w ≡ (err (http_exception 404), w)))
    ⊎ ((require_roles admins administrator ≡ ok administrator)
        × ((e : DeadLetterQueue) × (get_entry 5 w.db.dead_letters ≡ some e)
            × (((e.resolved ≡ true)
                  × (retry_dlq_entry administrator 5 w ≡ (err (http_exception 400), w)))
                ⊎ ((e.resolved ≡ false) × IsRetried administrator "asha" 5 w e))))
retry_dlq_entry-once_example = retry_dlq_entry-once administrator "asha" 5 (world_with first_row)
