-- ===== src/Services/DeliveryTracking/Receipts.antt =====
-- What a delivery receipt does to the rows.
use financial_notification_p.Prelude.{ℕ, ◌≡◌, ◌≢◌, refl, String, some, List, [], ◌∷◌, ◌++◌}
use financial_notification_p.Core.Constants.{NotificationStatus, DeliveryStatus}
use financial_notification_p.Core.Exceptions.{ok}
use financial_notification_p.Models.Rows.{Notification}
use financial_notification_p.Models.World.{World}
use financial_notification_p.Redis.Server.{Redis}
use financial_notification_p.Repositories.Notifications.{get, update_status}
use financial_notification_p.Repositories.Notifications.Rows.{
  KeepsId, get-status_self, get-status_ne,
}
use financial_notification_p.Services.DeliveryTracking.{
  Extra, receipt_updates, apply_receipt, receipt_log, with_message_id, handle_delivery_receipt,
}

-- The status that a receipt leaves a row in.
abbrev pub settled_status : DeliveryStatus → NotificationStatus → NotificationStatus
settled_status DeliveryStatus.delivered s = NotificationStatus.delivered
settled_status DeliveryStatus.failed s = NotificationStatus.failed
settled_status DeliveryStatus.bounced s = NotificationStatus.failed
settled_status _ s = s

-- The row that a receipt leaves, at its primary key.
abbrev pub Settles : DeliveryStatus → Notification → List Notification → Type 0
Settles d n ns =
    (m : Notification) × (get n.id ns ≡ some m)
    × (m.status ≡ settled_status d n.status)
    × (m.retry_count ≡ n.retry_count)

apply_receipt-Settles :
    (now : ℕ) (d : DeliveryStatus) (extra : Extra) (n : Notification) (ns : List Notification)
    → get n.id ns ≡ some n
    → Settles d n (apply_receipt now d extra n ns)
unfolding apply_receipt receipt_updates
apply_receipt-Settles now d extra n ns g = go d
  where
    updated :
        (s : NotificationStatus) (f : Notification → Notification)
        → KeepsId f
        → (f n).retry_count ≡ n.retry_count
        → (m : Notification) × (get n.id (update_status n.id s f ns) ≡ some m)
          × (m.status ≡ s)
          × (m.retry_count ≡ n.retry_count)
    updated s f k same =
        (let m = f n in record m { status = s }, get-status_self n.id s f ns n k g, refl, same)

    go : (d : DeliveryStatus) → Settles d n (apply_receipt now d extra n ns)
    go DeliveryStatus.delivered = updated _ _ (λ n. refl) refl
    go DeliveryStatus.failed = updated _ _ (λ n. refl) refl
    go DeliveryStatus.bounced = updated _ _ (λ n. refl) refl
    go DeliveryStatus.opened = updated _ _ (λ n. refl) refl
    go DeliveryStatus.unknown = (n, g, refl, refl)
    go DeliveryStatus.queued = (n, g, refl, refl)
    go DeliveryStatus.sent = (n, g, refl, refl)
    go DeliveryStatus.clicked = (n, g, refl, refl)

apply_receipt-ne :
    (now : ℕ) (d : DeliveryStatus) (extra : Extra) (n : Notification) (ns : List Notification)
    (j : ℕ)
    → j ≢ n.id
    → get j (apply_receipt now d extra n ns) ≡ get j ns
unfolding apply_receipt receipt_updates
apply_receipt-ne now d extra n ns j ne = go d
  where
    go : (d : DeliveryStatus) → get j (apply_receipt now d extra n ns) ≡ get j ns
    go DeliveryStatus.delivered = get-status_ne n.id j _ _ ns (λ n. refl) ne
    go DeliveryStatus.failed = get-status_ne n.id j _ _ ns (λ n. refl) ne
    go DeliveryStatus.bounced = get-status_ne n.id j _ _ ns (λ n. refl) ne
    go DeliveryStatus.opened = get-status_ne n.id j _ _ ns (λ n. refl) ne
    go DeliveryStatus.unknown = refl
    go DeliveryStatus.queued = refl
    go DeliveryStatus.sent = refl
    go DeliveryStatus.clicked = refl

module _ {r : Redis} (provider message_id : String) (d : DeliveryStatus) (extra : Extra) where
  -- A receipt whose message identifier is that of one row, which its primary key finds: the row is then
  -- delivered or failed as the receipt says, or in its status as before, whatever that status was; its
  -- retries are not counted again, the rows of other keys are as before, and one log is added.
  pub handle_delivery_receipt-row :
      (w : World r) (n : Notification)
      → with_message_id message_id w.db.notifications ≡ n ∷ []
      → get n.id w.db.notifications ≡ some n
      → (let (result, w') = handle_delivery_receipt provider message_id d extra w in
          (result ≡ ok tt)
          × Settles d n w'.db.notifications
          × ((j : ℕ) → j ≢ n.id → get j w'.db.notifications ≡ get j w.db.notifications)
          × (w'.db.delivery_logs
              ≡ w.db.delivery_logs ++ receipt_log w.clock provider message_id d n ∷ []))
  unfolding handle_delivery_receipt
  handle_delivery_receipt-row w n one found =
      rw (one, handle_delivery_receipt)
        (
          refl,
          apply_receipt-Settles w.clock d extra n w.db.notifications found,
          (λ j ne. apply_receipt-ne w.clock d extra n w.db.notifications j ne),
          refl,
        )
