-- ===== src/Celery/Tasks.antt =====
-- app/celery/tasks.py and app/celery/scheduled_tasks.py. The provider's channel is a parameter: what
-- `channel.send(...)` answers for a row at an instant, or the text of what it raises. A task works on
-- a session of its own: it commits, or what it wrote is rolled back.
use financial_notification_p.Prelude.{
  ℕ, zero, suc, ◌+◌, String, Bool, true, false, ◌&&◌, ◌||◌, not, Option, none, some, List, [], ◌∷◌,
  ◌++◌, map, length, keep, ltb, leb, ◌==◌, if◌then◌else◌,
}
use financial_notification_p.Core.Constants.{
  NotificationChannel, NotificationStatus, DeliveryStatus, status_eq, channel_value,
  retry_delay_schedule,
}
use financial_notification_p.Models.Rows.{Notification, DeliveryLog}
use financial_notification_p.Models.World.{
  Db, Task, World, send_notification_task, retry_notification_task,
}
use financial_notification_p.Redis.Server.{Redis}
use financial_notification_p.Repositories.Notifications.{get, update_status, get_pending_retries}
pub mod Rows
pub mod Send
pub mod Retry
pub mod Cancelled
pub mod Replied

-- app/channels/base.py
pub record ChannelResult : Type 0 where
  pub success : Bool
  pub provider_message_id : Option String
  pub error_message : Option String
  pub error_code : Option String
  pub latency_ms : Option ℕ

pub data Outcome : Type 0 where
  replied : ChannelResult → Outcome
  raised : String → Outcome

-- what a task returns
pub data TaskResult : Type 0 where
  not_found : TaskResult
  already : NotificationStatus → TaskResult
  delivered : Option String → TaskResult
  dead : TaskResult
  retrying : ℕ → TaskResult
  failed : String → TaskResult
  requeued : TaskResult

abbrev pub Provider : Type 0
Provider = ℕ → Notification → Outcome

-- `RETRY_DELAY_SCHEDULE[min(retry_count, len(RETRY_DELAY_SCHEDULE) - 1)]`: the entry, or the last
abbrev pub entry_or_last : List ℕ → ℕ → ℕ
entry_or_last [] i = 0
entry_or_last (d ∷ []) i = d
entry_or_last (d ∷ e ∷ ds) zero = d
entry_or_last (d ∷ e ∷ ds) (suc i) = entry_or_last (e ∷ ds) i

abbrev pub retry_delay : ℕ → ℕ
retry_delay retry_count = entry_or_last retry_delay_schedule retry_count

abbrev pub delivery_log : ℕ → Notification → ChannelResult → DeliveryLog
delivery_log now n result = record {
  notification_id = n.id;
  channel = n.channel;
  status = if result.success then DeliveryStatus.delivered else DeliveryStatus.failed;
  provider = channel_value n.channel;
  provider_message_id = result.provider_message_id;
  attempt_number = n.retry_count + 1;
  sent_at = if result.success then some now else none;
  delivered_at = if result.success then some now else none;
  error_message = result.error_message;
  error_code = result.error_code;
  latency_ms = result.latency_ms;
}

-- The last update of the row, once the channel has answered.
abbrev pub mark_delivered : ℕ → ChannelResult → Notification → Notification
mark_delivered now result m = record m {
  provider_message_id = result.provider_message_id;
  sent_at = some now;
  delivered_at = some now;
}

abbrev pub mark_failed : ℕ → ChannelResult → Notification → Notification
mark_failed retry_count result m = record m {
  retry_count = retry_count;
  error_message = result.error_message;
  error_code = result.error_code;
}

abbrev pub mark_retrying : ℕ → ℕ → ChannelResult → Notification → Notification
mark_retrying retry_count next_retry result m = record m {
  retry_count = retry_count;
  next_retry_at = some next_retry;
  error_message = result.error_message;
  error_code = result.error_code;
}

abbrev requeue : List Notification → List Task
requeue = map (λ (n : Notification). send_notification_task n.id)

abbrev is_finished : NotificationStatus → Bool
is_finished s =
    status_eq s NotificationStatus.delivered
    || (status_eq s NotificationStatus.skipped
        || (status_eq s NotificationStatus.dead || status_eq s NotificationStatus.cancelled))

-- 90 days in seconds
abbrev pub keep_for : ℕ
keep_for = 7776000

module _ {r : Redis} where
  pub set_status : ℕ → NotificationStatus → (Notification → Notification) → World r → World r
  set_status id status extra w =
      let db = w.db in
      record w { db = record db { notifications = update_status id status extra db.notifications } }

  pub add_delivery_log : DeliveryLog → World r → World r
  add_delivery_log log w =
      let db = w.db in record w { db = record db { delivery_logs = db.delivery_logs ++ log ∷ [] } }

  pub enqueue : Task → World r → World r
  enqueue t w = record w { tasks = w.tasks ++ t ∷ [] }

  -- the `try` body after `channel.send` has returned
  pub record_reply : Notification → ChannelResult → World r → TaskResult × World r
  unfolding set_status add_delivery_log enqueue
  record_reply n result w =
      let w1 = add_delivery_log (delivery_log w.clock n result) w in
      let retry_count = n.retry_count + 1 in
      let delay = retry_delay retry_count in
      if result.success
      then (
        delivered result.provider_message_id,
        set_status n.id NotificationStatus.delivered (mark_delivered w.clock result) w1,
      )
      else if leb n.max_retries retry_count
      then (dead, set_status n.id NotificationStatus.dead (mark_failed retry_count result) w1)
      else (
        retrying delay,
        enqueue (retry_notification_task n.id delay) (
            set_status n.id NotificationStatus.retrying
              (mark_retrying retry_count (w.clock + delay) result) w1),
      )

  -- the `except` branch, on a session of its own
  pub record_error : ℕ → String → World r → TaskResult × World r
  unfolding set_status
  record_error id error w = elim (get id w.db.notifications) [
    | none ↦ (failed error, w)
    | some n ↦
        let retry_count = n.retry_count + 1 in
        if leb n.max_retries retry_count
        then (
          failed error,
          set_status n.id NotificationStatus.dead (λ m. record m { error_message = some error }) w,
        )
        else (
          failed error,
          set_status n.id NotificationStatus.retrying
              (λ m. record m {
                retry_count = retry_count;
                next_retry_at = some (w.clock + retry_delay retry_count);
                error_message = some error;
              })
              w,
        )
  ]

  pub send_found : Provider → Notification → World r → TaskResult × World r
  unfolding record_reply record_error
  send_found send n w =
      if status_eq n.status NotificationStatus.delivered
        || status_eq n.status NotificationStatus.cancelled
      then (already n.status, w)
      else elim (send w.clock n) [
        | replied result ↦
            record_reply n result (set_status n.id NotificationStatus.processing (λ m. m) w)
        | raised error ↦ record_error n.id error w
      ]

  -- `_send_notification_async`
  unfoldable pub send_notification : Provider → ℕ → World r → TaskResult × World r
  unfolding send_found
  send_notification send id w = elim (get id w.db.notifications) [
    | none ↦ (not_found, w)
    | some n ↦ send_found send n w
  ]

  -- `_retry_async`
  unfoldable pub retry_notification : ℕ → World r → TaskResult × World r
  unfolding set_status enqueue
  retry_notification id w = elim (get id w.db.notifications) [
    | none ↦ (not_found, w)
    | some n ↦ (
      requeued,
      enqueue (send_notification_task id) (set_status n.id NotificationStatus.pending (λ m. m) w),
    )
  ]

  -- `_retry_failed`: the number that was put back on the queue
  unfoldable pub retry_failed : World r → ℕ × World r
  retry_failed w =
      let ns = get_pending_retries w.clock 100 w.db.notifications in
      (length ns, record w { tasks = w.tasks ++ requeue ns })

  -- `_cleanup`; the cut-off is moved to the other side of the comparison
  unfoldable pub cleanup : World r → ℕ × World r
  cleanup w =
      let db = w.db in
      let old =
        λ (n : Notification). ltb (n.created_at + keep_for) w.clock && is_finished n.status in
      (
        length (keep old db.notifications),
        record w { db = record db { notifications = keep (λ n. not (old n)) db.notifications } },
      )
