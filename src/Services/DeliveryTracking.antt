-- ===== src/Services/DeliveryTracking.antt =====
-- app/services/delivery_tracking_service.py and the receipts of app/api/v1/endpoints/webhooks.py. The
-- extra fields of a receipt map their names to a text or to `None`.
use financial_notification_p.Prelude.{
  ℕ, ◌+◌, String, Bool, true, false, Option, none, some, List, [], ◌∷◌, ◌++◌, keep, lookup, get_or,
  map, str_eq, truthy, before, ◌==◌, if◌then◌else◌,
}
use financial_notification_p.Core.Constants.{NotificationStatus, DeliveryStatus, delivery_status_eq}
use financial_notification_p.Core.Exceptions.{
  Result, ok, err, multiple_results_found, http_exception,
}
use financial_notification_p.Models.Rows.{Notification, DeliveryLog}
use financial_notification_p.Models.World.{Db, World, Action, ◌>>=◌}
use financial_notification_p.Redis.Server.{Redis}
use financial_notification_p.Repositories.Notifications.{has_key, update_status}
pub mod Receipts

abbrev pub Extra : Type 0
Extra = List (String × Option String)

-- What a receipt does to the row; `none` where `updates` stays empty.
unfoldable pub receipt_updates :
    ℕ → DeliveryStatus → Extra → Option (Option NotificationStatus × (Notification → Notification))
receipt_updates now DeliveryStatus.delivered extra =
    some (some NotificationStatus.delivered, λ n. record n { delivered_at = some now })
receipt_updates now DeliveryStatus.failed extra = some (
  some NotificationStatus.failed,
  λ n. record n {
    error_message = get_or (lookup "error_message" extra) (some "Provider reported failure");
  },
)
receipt_updates now DeliveryStatus.bounced extra = some (
  some NotificationStatus.failed,
  λ n. record n {
    error_message = get_or (lookup "error_message" extra) (some "Provider reported failure");
  },
)
receipt_updates now DeliveryStatus.opened extra = some (none, λ n. record n { read_at = some now })
receipt_updates now _ extra = none

-- `updates.pop("status", notification.status)`
unfoldable pub apply_receipt :
    ℕ → DeliveryStatus → Extra → Notification → List Notification → List Notification
apply_receipt now status extra n ns = elim (receipt_updates now status extra) [
  | none ↦ ns
  | some (new, f) ↦ update_status n.id (get_or new n.status) f ns
]

abbrev pub receipt_log : ℕ → String → String → DeliveryStatus → Notification → DeliveryLog
receipt_log now provider message_id status n = record {
  notification_id = n.id;
  channel = n.channel;
  status = status;
  provider = provider;
  provider_message_id = some message_id;
  attempt_number = n.retry_count + 1;
  sent_at = none;
  delivered_at = if delivery_status_eq status DeliveryStatus.delivered then some now else none;
  error_message = none;
  error_code = none;
  latency_ms = none;
}

abbrev pub with_message_id : String → List Notification → List Notification
with_message_id id = keep (λ (n : Notification). has_key id n.provider_message_id)

abbrev pub record_receipt : ℕ → String → String → DeliveryStatus → Extra → Notification → Db → Db
record_receipt now provider message_id status extra n db = record db {
  notifications = apply_receipt now status extra n db.notifications;
  delivery_logs = db.delivery_logs ++ receipt_log now provider message_id status n ∷ [];
}

-- `get_delivery_timeline`, less the formatting of the columns
unfoldable pub get_delivery_timeline : ℕ → List DeliveryLog → List DeliveryLog
get_delivery_timeline id = keep (λ (l : DeliveryLog). l.notification_id == id)

-- the two STATUS_MAPs
unfoldable pub twilio_status : String → DeliveryStatus
twilio_status s =
    get_or
      (lookup s (
        ("delivered", DeliveryStatus.delivered)
        ∷ ("undelivered", DeliveryStatus.failed)
        ∷ ("failed", DeliveryStatus.failed)
        ∷ ("sent", DeliveryStatus.sent)
        ∷ ("queued", DeliveryStatus.queued)
        ∷ []))
      DeliveryStatus.unknown

unfoldable pub sendgrid_status : String → Option DeliveryStatus
sendgrid_status s = lookup s (
    ("delivered", DeliveryStatus.delivered)
    ∷ ("bounce", DeliveryStatus.bounced)
    ∷ ("open", DeliveryStatus.opened)
    ∷ ("click", DeliveryStatus.clicked)
    ∷ ("dropped", DeliveryStatus.failed)
    ∷ ("spamreport", DeliveryStatus.failed)
    ∷ ("unsubscribe", DeliveryStatus.failed)
    ∷ [])

module _ {r : Redis} where
  unfoldable pub handle_delivery_receipt :
      String → String → DeliveryStatus → Extra → Action r (Unit {0})
  handle_delivery_receipt provider message_id status extra w =
      elim (with_message_id message_id w.db.notifications) [
        | [] ↦ (ok tt, w)
        | n ∷ [] ↦ (
          ok tt,
          record w { db = record_receipt w.clock provider message_id status extra n w.db },
        )
        | n ∷ m ∷ ms ↦ (err multiple_results_found, w)
      ]

  -- the form's fields, the status in small letters
  unfoldable pub twilio_sms_webhook :
      String → String → Option String → Option String → Action r (Unit {0})
  twilio_sms_webhook sid status error_code error_message =
      handle_delivery_receipt "twilio" sid (twilio_status status) (
        ("twilio_status", some status)
        ∷ ("error_code", error_code)
        ∷ ("error_message", error_message)
        ∷ [])

-- An event of SendGrid's: its fields `event`, `sg_message_id` and `timestamp`, the first two `""` where
-- they are missing.
pub record SendgridEvent : Type 0 where
  pub event : String
  pub sg_message_id : String
  pub timestamp : Option String

module _ {r : Redis} (lower : String → String) where
  unfoldable pub sendgrid_event : SendgridEvent → Action r (Unit {0})
  unfolding sendgrid_status handle_delivery_receipt
  sendgrid_event e w =
      let event_type = lower e.event in
      let message_id = before b'.' e.sg_message_id in
      elim (sendgrid_status event_type) [
        | none ↦ (ok tt, w)
        | some status ↦
            if truthy message_id
            then handle_delivery_receipt "sendgrid" message_id status
                (("sendgrid_event", some event_type) ∷ ("timestamp", e.timestamp) ∷ []) w
            else (ok tt, w)
      ]

  unfoldable pub sendgrid_events : List SendgridEvent → Action r (Unit {0})
  unfolding sendgrid_event
  sendgrid_events [] w = (ok tt, w)
  sendgrid_events (e ∷ es) w = (sendgrid_event e >>= λ done. sendgrid_events es) w

  -- The body's events, `none` where it is no JSON. All of them are committed, or none.
  unfoldable pub sendgrid_email_webhook : Option (List SendgridEvent) → Action r (Unit {0})
  unfolding sendgrid_events
  sendgrid_email_webhook none w = (err (http_exception 400), w)
  sendgrid_email_webhook (some es) w =
      let (result, after) = sendgrid_events es w in
      elim result [ ok _ ↦ (ok tt, after) | err e ↦ (err e, record after { db = w.db }) ]
