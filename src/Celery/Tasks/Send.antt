-- ===== src/Celery/Tasks/Send.antt =====
-- What one run of the sending task does to the row, the queue and the log.
use financial_notification_p.Prelude.{
  ◌+◌, ◌≤◌, ◌<◌, ◌≡◌, refl, String, true, false, some, [], ◌∷◌, ◌++◌, arith, Bool-cases, inl, inr,
  leb, if◌then◌else◌,
}
use financial_notification_p.Core.Constants.{NotificationStatus}
use financial_notification_p.Models.Rows.{Notification}
use financial_notification_p.Models.World.{World, retry_notification_task}
use financial_notification_p.Redis.Server.{Redis}
use financial_notification_p.Celery.Tasks.{
  ChannelResult, replied, raised, Provider, delivered, dead, retrying, retry_delay, delivery_log,
  set_status, add_delivery_log, record_reply, record_error, send_notification, send_found,
  mark_delivered, mark_failed, mark_retrying,
}
use financial_notification_p.Celery.Tasks.Rows.{IsOpen, not_closed, row, send_replied, row_written}

module _ {r : Redis} where
  -- One attempt that the provider accepts.
  pub send_accepted :
      (send : Provider) (n : Notification) (result : ChannelResult) (w : World r)
      → row n.id w ≡ some n
      → IsOpen n
      → send w.clock n ≡ replied result
      → result.success ≡ true
      → let (x, w') = send_notification send n.id w in
        (x ≡ delivered result.provider_message_id)
        × (row n.id w'
            ≡ some (record n {
              status = NotificationStatus.delivered;
              provider_message_id = result.provider_message_id;
              sent_at = some w.clock;
              delivered_at = some w.clock;
            }))
        × (w'.tasks ≡ w.tasks)
        × (w'.db.delivery_logs ≡ w.db.delivery_logs ++ delivery_log w.clock n result ∷ [])
  unfolding record_reply
  send_accepted send n result w e o q s =
      let p = record n { status = NotificationStatus.processing } in
      let w1 = set_status n.id NotificationStatus.processing (λ m. m) w in
      let w2 = add_delivery_log (delivery_log w.clock n result) w1 in
      let at_first : row n.id w2 ≡ some p =
        row_written n NotificationStatus.processing (λ m. m) n.id w (λ m. refl) e in
      rw (send_replied send n result w e o q) (
        rw (s, record_reply)
          (
            refl,
            row_written p NotificationStatus.delivered (mark_delivered w.clock result) n.id w2
                (λ m. refl) at_first,
            refl,
            refl,
          ))

  -- An attempt that the provider rejects, with no retry left.
  pub send_exhausted :
      (send : Provider) (n : Notification) (result : ChannelResult) (w : World r)
      → row n.id w ≡ some n
      → IsOpen n
      → send w.clock n ≡ replied result
      → result.success ≡ false
      → n.max_retries ≤ n.retry_count + 1
      → let (x, w') = send_notification send n.id w in
        (x ≡ dead)
        × (row n.id w'
            ≡ some (record n {
              status = NotificationStatus.dead;
              retry_count = n.retry_count + 1;
              error_message = result.error_message;
              error_code = result.error_code;
            }))
        × (w'.tasks ≡ w.tasks)
        × (w'.clock ≡ w.clock)
  unfolding record_reply
  send_exhausted send n result w e o q s le =
      let p = record n { status = NotificationStatus.processing } in
      let w1 = set_status n.id NotificationStatus.processing (λ m. m) w in
      let w2 = add_delivery_log (delivery_log w.clock n result) w1 in
      let at_first : row n.id w2 ≡ some p =
        row_written n NotificationStatus.processing (λ m. m) n.id w (λ m. refl) e in
      let used_up : leb n.max_retries (n.retry_count + 1) ≡ true = ground arith in
      rw (send_replied send n result w e o q) (
        rw (s, record_reply)
          (rw (used_up, record_reply)
            (
              refl,
              row_written p NotificationStatus.dead (mark_failed (n.retry_count + 1) result) n.id w2
                  (λ m. refl) at_first,
              refl,
              refl,
            )))

  -- An attempt that the provider rejects, with a retry left.
  pub send_retries :
      (send : Provider) (n : Notification) (result : ChannelResult) (w : World r)
      → row n.id w ≡ some n
      → IsOpen n
      → send w.clock n ≡ replied result
      → result.success ≡ false
      → n.retry_count + 1 < n.max_retries
      → let (x, w') = send_notification send n.id w in
        let delay = retry_delay (n.retry_count + 1) in
        (x ≡ retrying delay)
        × (row n.id w'
            ≡ some (record n {
              status = NotificationStatus.retrying;
              retry_count = n.retry_count + 1;
              next_retry_at = some (w.clock + delay);
              error_message = result.error_message;
              error_code = result.error_code;
            }))
        × (w'.tasks ≡ w.tasks ++ retry_notification_task n.id delay ∷ [])
        × (w'.clock ≡ w.clock)
  unfolding record_reply
  send_retries send n result w e o q s lt =
      let k = n.retry_count + 1 in
      let p = record n { status = NotificationStatus.processing } in
      let w1 = set_status n.id NotificationStatus.processing (λ m. m) w in
      let w2 = add_delivery_log (delivery_log w.clock n result) w1 in
      let at_first : row n.id w2 ≡ some p =
        row_written n NotificationStatus.processing (λ m. m) n.id w (λ m. refl) e in
      let left : leb n.max_retries (n.retry_count + 1) ≡ false = ground arith in
      rw (send_replied send n result w e o q) (
        rw (s, record_reply)
          (rw (left, record_reply)
            (
              refl,
              row_written p NotificationStatus.retrying
                  (mark_retrying k (w.clock + retry_delay k) result) n.id w2 (λ m. refl) at_first,
              refl,
              refl,
            )))

  raised_recorded :
      (send : Provider) (n : Notification) (error : String) (w : World r)
      → row n.id w ≡ some n
      → IsOpen n
      → send w.clock n ≡ raised error
      → send_notification send n.id w ≡ record_error n.id error w
  unfolding send_notification
  raised_recorded send n error w e o q =
      rw (e, send_notification) (rw (not_closed n.status o.0 o.1, send_found) (rw (q, send_found)))

  -- An attempt that raises, for a row that is found and is neither delivered nor cancelled, is
  -- rolled back: no delivery log is kept, and no retry is put on the queue. The row goes to
  -- `retrying` with the attempt counted, or to `dead` with its count as it was.
  pub send_raised :
      (send : Provider) (n : Notification) (error : String) (w : World r)
      → row n.id w ≡ some n
      → IsOpen n
      → send w.clock n ≡ raised error
      → let w' = (send_notification send n.id w).1 in
        let k = n.retry_count + 1 in
        (row n.id w'
          ≡ some (
              if leb n.max_retries k
              then record n { status = NotificationStatus.dead; error_message = some error }
              else record n {
                status = NotificationStatus.retrying;
                retry_count = k;
                next_retry_at = some (w.clock + retry_delay k);
                error_message = some error;
              }))
        × (w'.tasks ≡ w.tasks)
        × (w'.db.delivery_logs ≡ w.db.delivery_logs)
  unfolding record_error
  send_raised send n error w e o q =
      let k = n.retry_count + 1 in
      elim (Bool-cases (leb n.max_retries k)) [
        | inl used_up ↦ rw (raised_recorded send n error w e o q) (
            rw (e, record_error)
              (rw (used_up, record_error)
                (
                  row_written n NotificationStatus.dead
                      (λ m. record m { error_message = some error }) n.id w (λ m. refl) e,
                  refl,
                  refl,
                )))
        | inr left ↦ rw (raised_recorded send n error w e o q) (
            rw (e, record_error)
              (rw (left, record_error)
                (
                  row_written n NotificationStatus.retrying
                      (λ m. record m {
                        retry_count = k;
                        next_retry_at = some (w.clock + retry_delay k);
                        error_message = some error;
                      })
                      n.id w (λ m. refl) e,
                  refl,
                  refl,
                )))
      ]
