-- ===== src/Api/Notifications.antt =====
-- app/api/v1/endpoints/notifications.py: reading, marking, retrying and cancelling. A handler's user
-- comes from `get_current_user` and `require_manager`. What is written before an exception is rolled
-- back by the session, and every exception here comes before the first write.
use financial_notification_p.Prelude.{
  ℕ, ◌≡◌, String, Bool, true, false, not, ◌||◌, ◌&&◌, Option, none, some, List, [], ◌∷◌, any, ◌==◌,
  if◌then◌else◌, keep, ◌++◌, map, length, get_or, matches,
}
use financial_notification_p.Core.Constants.{
  FinancialEventType, NotificationStatus, NotificationChannel, NotificationPriority, status_eq,
  role_eq, channel_eq, event_value, channel_value, priority_value,
}
use financial_notification_p.Core.Exceptions.{Result, ok, err, http_exception}
use financial_notification_p.Models.Rows.{Json, Notification, DeadLetterQueue}
use financial_notification_p.Models.World.{World, Action, Task, send_notification_task}
use financial_notification_p.Redis.Server.{Redis}
use financial_notification_p.Repositories.Notifications.{
  get, get_unread_count, mark_as_read, update_status,
}
use financial_notification_p.Services.Auth.{CurrentUser, require_roles, managers}
use financial_notification_p.Celery.Tasks.{set_status, enqueue}
use financial_notification_p.Schemas.Pagination.{PaginationParams, PaginatedResponse, list_page}
use financial_notification_p.Services.External.{External}
use financial_notification_p.Services.EventArguments.{text}
use financial_notification_p.Kafka.Handlers.{Payload}
use financial_notification_p.Kafka.Producer.{
  KafkaBroker, Topics, publish_notification_event, publish_notification_events,
}
pub mod Lifecycle

-- `current_user.role in (SUPERADMIN, ADMIN, MANAGER)`
abbrev pub is_manager : CurrentUser → Bool
is_manager u = any (role_eq u.role) managers

unfoldable pub can_retry : NotificationStatus → Bool
can_retry s = status_eq s NotificationStatus.failed || status_eq s NotificationStatus.dead

unfoldable pub can_cancel : NotificationStatus → Bool
can_cancel s = not (status_eq s NotificationStatus.delivered || status_eq s NotificationStatus.sent)

-- The requests of app/schemas/notification.py; `scheduled_at` is published and never read.
pub record NotificationEventPayload : Type 0 where
  pub user_id : ℕ
  pub event_type : FinancialEventType
  pub priority : NotificationPriority
  pub channels : Option (List NotificationChannel)
  pub event_data : Json
  pub locale : Option String
  pub idempotency_key : Option String

pub record BulkEventRequest : Type 0 where
  pub user_ids : List ℕ
  pub event_type : FinancialEventType
  pub priority : NotificationPriority
  pub channels : Option (List NotificationChannel)
  pub event_data : Json

abbrev pub event_payload : External → NotificationEventPayload → Payload
event_payload x p = record {
  user_id = some (x.uuid_text p.user_id);
  event_type = some (event_value p.event_type);
  priority = text (priority_value p.priority);
  channels = map channel_value (get_or p.channels []);
  event_data = p.event_data;
  locale = p.locale;
  idempotency_key = p.idempotency_key;
}

-- the payload for one user of a bulk request, which has no key and no locale
abbrev pub bulk_payload : External → BulkEventRequest → ℕ → Payload
bulk_payload x p id = event_payload x record {
  user_id = id;
  event_type = p.event_type;
  priority = p.priority;
  channels = p.channels;
  event_data = p.event_data;
  locale = none;
  idempotency_key = none;
}

unfoldable pub trigger_event :
    External
    → KafkaBroker
    → CurrentUser
    → NotificationEventPayload
    → Topics
    → Result (Unit {0}) × Topics
unfolding publish_notification_event
trigger_event x b u p t = elim (require_roles managers u) [
  | err e ↦ (err e, t)
  | ok _ ↦ publish_notification_event b (event_payload x p) t
]

unfoldable pub trigger_bulk_event :
    External → KafkaBroker → CurrentUser → BulkEventRequest → Topics → Result ℕ × Topics
unfolding publish_notification_events
trigger_bulk_event x b u p t = elim (require_roles managers u) [
  | err e ↦ (err e, t)
  | ok _ ↦
      let (result, after) = publish_notification_events b (map (bulk_payload x p) p.user_ids) t in
      elim result [ ok _ ↦ (ok (length p.user_ids), after) | err e ↦ (err e, after) ]
]

-- the rows of `get_user_notifications`
unfoldable pub is_listed :
    ℕ → Option NotificationStatus → Option NotificationChannel → Notification → Bool
is_listed user_id status channel n =
    n.user_id == user_id
    && (matches (status_eq n.status) status && matches (channel_eq n.channel) channel)

module _ {r : Redis} where
  unfoldable pub list_notifications :
      (List Notification → List Notification)
      → CurrentUser
      → PaginationParams
      → Option NotificationStatus
      → Option NotificationChannel
      → Action r (PaginatedResponse Notification)
  unfolding list_page is_listed
  list_notifications newest_first u p status channel w =
      (ok (list_page newest_first (is_listed u.user_id status channel) p w.db.notifications), w)

  unfoldable pub unread_count : CurrentUser → Action r ℕ
  unread_count u w = (ok (get_unread_count u.user_id w.db.notifications), w)

  unfoldable pub get_notification : CurrentUser → ℕ → Action r Notification
  get_notification u id w = elim (get id w.db.notifications) [
    | none ↦ (err (http_exception 404), w)
    | some n ↦
        if not (n.user_id == u.user_id) && not (is_manager u)
        then (err (http_exception 403), w)
        else (ok n, w)
  ]

  -- the number in the message
  unfoldable pub mark_notifications_read : CurrentUser → List ℕ → Action r ℕ
  mark_notifications_read u ids w =
      let (count, ns) = mark_as_read w.clock ids u.user_id w.db.notifications in
      let db = w.db in (ok count, record w { db = record db { notifications = ns } })

  unfoldable pub retry_notification : CurrentUser → ℕ → Action r (Unit {0})
  retry_notification u id w = elim (require_roles managers u) [
    | err e ↦ (err e, w)
    | ok _ ↦ elim (get id w.db.notifications) [
      | none ↦ (err (http_exception 404), w)
      | some n ↦ if not (can_retry n.status) then (err (http_exception 400), w) else (
        ok tt,
        enqueue (send_notification_task id)
            (set_status id NotificationStatus.pending (λ m. record m { retry_count = 0 }) w),
      )
    ]
  ]

  unfoldable pub cancel_notification : CurrentUser → ℕ → Action r (Unit {0})
  cancel_notification u id w = elim (require_roles managers u) [
    | err e ↦ (err e, w)
    | ok _ ↦ elim (get id w.db.notifications) [
      | none ↦ (err (http_exception 404), w)
      | some n ↦
          if not (can_cancel n.status)
          then (err (http_exception 400), w)
          else (ok tt, set_status id NotificationStatus.cancelled (λ m. m) w)
    ]
  ]
