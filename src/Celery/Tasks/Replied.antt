-- ===== src/Celery/Tasks/Replied.antt =====
-- All answers of the provider together.
use financial_notification_p.Prelude.{
  ℕ, ◌≡◌, ◌+◌, sym, subst, ◌∙◌, Bool, true, false, some, List, [], ◌∷◌, ◌++◌, arith, leb, leb→le,
  Bool-cases, inl, inr,
}
use mathlib.Core.List.{append-nil}
use financial_notification_p.Core.Constants.{NotificationStatus}
use financial_notification_p.Models.Rows.{Notification}
use financial_notification_p.Models.World.{Task, World, retry_notification_task}
use financial_notification_p.Redis.Server.{Redis}
use financial_notification_p.Celery.Tasks.{
  ChannelResult, replied, TaskResult, Provider, delivered, dead, retrying, retry_delay,
  send_notification,
}
use financial_notification_p.Celery.Tasks.Rows.{row, IsOpen}
use financial_notification_p.Celery.Tasks.Send.{send_accepted, send_exhausted, send_retries}

-- The row that a reply leaves, by whether it was a success and whether the retries are used up.
abbrev pub settled_row : ℕ → ChannelResult → Notification → Bool → Bool → Notification
settled_row now result n true spent = record n {
  status = NotificationStatus.delivered;
  provider_message_id = result.provider_message_id;
  sent_at = some now;
  delivered_at = some now;
}
settled_row now result n false true = record n {
  status = NotificationStatus.dead;
  retry_count = n.retry_count + 1;
  error_message = result.error_message;
  error_code = result.error_code;
}
settled_row now result n false false = record n {
  status = NotificationStatus.retrying;
  retry_count = n.retry_count + 1;
  next_retry_at = some (now + retry_delay (n.retry_count + 1));
  error_message = result.error_message;
  error_code = result.error_code;
}

abbrev pub settled_result : ChannelResult → Notification → Bool → Bool → TaskResult
settled_result result n true spent = delivered result.provider_message_id
settled_result result n false true = dead
settled_result result n false false = retrying (retry_delay (n.retry_count + 1))

abbrev pub queued_after : Notification → Bool → Bool → List Task
queued_after n false false = retry_notification_task n.id (retry_delay (n.retry_count + 1)) ∷ []
queued_after n _ _ = []

module _ {r : Redis} where
  abbrev pub Settled :
      ChannelResult → Notification → World r → TaskResult × World r → Bool → Bool → Type 0
  Settled result n w (x, w') success spent =
      (x ≡ settled_result result n success spent)
      × (row n.id w' ≡ some (settled_row w.clock result n success spent))
      × (w'.tasks ≡ w.tasks ++ queued_after n success spent)

  -- The provider's reply for a notification that is neither delivered nor cancelled: a success leaves it
  -- delivered; a rejection leaves it dead where the attempt uses up its retries, and else retrying at
  -- the instant that the schedule gives. A retrying task is queued in the last case only, with the
  -- schedule's delay.
  pub send_notification-Settled :
      (send : Provider) (n : Notification) (result : ChannelResult) (w : World r)
      → row n.id w ≡ some n
      → IsOpen n
      → send w.clock n ≡ replied result
      → Settled result n w
          (send_notification send n.id w)
          result.success
          (leb n.max_retries (n.retry_count + 1))
  send_notification-Settled send n result w stands open_ answer =
      let sent = send_notification send n.id w in
      elim (Bool-cases result.success) [
        | inl success ↦
            let (x, row_, tasks, _) = send_accepted send n result w stands open_ answer success in
            subst (λ b. Settled result n w sent b (leb n.max_retries (n.retry_count + 1)))
              (sym success) (x, row_, tasks ∙ sym (append-nil w.tasks))
        | inr failure ↦ elim (Bool-cases (leb n.max_retries (n.retry_count + 1))) [
          | inl spent ↦
              let (x, row_, tasks, _) =
                send_exhausted send n result w stands open_ answer failure
                  (leb→le n.max_retries (n.retry_count + 1) spent) in
              subst (λ b. Settled result n w sent b (leb n.max_retries (n.retry_count + 1)))
                (sym failure)
                (subst (λ b. Settled result n w sent false b) (sym spent)
                  (x, row_, tasks ∙ sym (append-nil w.tasks)))
          | inr left ↦
              let (x, row_, tasks, _) =
                send_retries send n result w stands open_ answer failure (ground arith) in
              subst (λ b. Settled result n w sent b (leb n.max_retries (n.retry_count + 1)))
                (sym failure)
                (subst (λ b. Settled result n w sent false b) (sym left) (x, row_, tasks))
        ]
      ]
