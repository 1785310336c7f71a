-- ===== src/Api/Dlq.antt =====
-- app/api/v1/endpoints/dlq.py: the entries of the dead-letter table, which no code of the application adds.
-- `ilike` is a parameter.
use financial_notification_p.Prelude.{
  ℕ, ◌≡◌, String, Bool, true, false, not, ◌&&◌, str_eq, bool_eq, Option, none, some, List, [], ◌∷◌,
  ◌++◌, any, find, keep, length, map, take, ltb, ◌==◌, truthy, if◌then◌else◌,
}
use financial_notification_p.Core.Constants.{NotificationStatus}
use financial_notification_p.Core.Exceptions.{Result, ok, err, http_exception}
use financial_notification_p.Models.Rows.{Notification, DeadLetterQueue}
use financial_notification_p.Models.World.{Db, Task, World, Action, send_notification_task}
use financial_notification_p.Redis.Server.{Redis}
use financial_notification_p.Repositories.Notifications.{update_where_id}
use financial_notification_p.Repositories.Grouping.{count_groups}
use financial_notification_p.Services.Auth.{CurrentUser, require_roles, admins, analysts}
use financial_notification_p.Schemas.Pagination.{PaginationParams, PaginatedResponse, list_page}
pub mod Resolution

abbrev pub get_entry : ℕ → List DeadLetterQueue → Option DeadLetterQueue
get_entry id = find (λ (e : DeadLetterQueue). e.id == id)

abbrev pub update_entry :
    ℕ → (DeadLetterQueue → DeadLetterQueue) → List DeadLetterQueue → List DeadLetterQueue
update_entry id f = map (λ (e : DeadLetterQueue). if e.id == id then f e else e)

abbrev pub mark_retried : ℕ → DeadLetterQueue → DeadLetterQueue
mark_retried now e = record e {
  resolved = true;
  resolution_action = some "retried";
  resolved_at = some now;
}

abbrev pub mark_discarded : ℕ → String → DeadLetterQueue → DeadLetterQueue
mark_discarded now by e = record e {
  resolved = true;
  resolution_action = some "discarded";
  resolved_by = some by;
  resolved_at = some now;
}

-- What the retry of one entry does to the notification; the bulk retry leaves the message.
abbrev pub reset_notification : Notification → Notification
reset_notification n = record n {
  status = NotificationStatus.pending;
  retry_count = 0;
  error_message = none;
}

abbrev pub reset_counters : Notification → Notification
reset_counters n = record n { status = NotificationStatus.pending; retry_count = 0 }

pub record DlqStats : Type 0 where
  pub total : ℕ
  pub unresolved : ℕ
  pub resolved : ℕ
  pub by_reason : List (String × ℕ)
  pub alert : Bool

abbrev pub is_unresolved : DeadLetterQueue → Bool
is_unresolved e = not e.resolved

-- the ten reasons with the most unresolved entries; the order among equals is the database's
unfoldable pub by_failure_reason :
    (List (String × ℕ) → List (String × ℕ)) → List DeadLetterQueue → List (String × ℕ)
unfolding count_groups
by_failure_reason most_first es = take 10 (
    most_first (
      count_groups str_eq (map (λ (e : DeadLetterQueue). e.failure_reason) (keep is_unresolved es))
        []))

unfoldable pub get_dlq_stats :
    (List (String × ℕ) → List (String × ℕ)) → List DeadLetterQueue → DlqStats
unfolding by_failure_reason
get_dlq_stats most_first es = record {
  by_reason = by_failure_reason most_first es;
  total = length es;
  unresolved = length (keep is_unresolved es);
  resolved = length (keep (λ (e : DeadLetterQueue). e.resolved) es);
  alert = ltb 100 (length (keep is_unresolved es));
}

-- `reason_filter`, and `failure_reason.ilike(f"%{reason_filter}%")`
abbrev pub selected : (String → String → Bool) → Option String → DeadLetterQueue → Bool
selected like none e = is_unresolved e
selected like (some s) e = is_unresolved e && (if truthy s then like s e.failure_reason else true)

-- the filters of `list_dlq_entries`
unfoldable pub is_listed :
    (String → String → Bool) → Option Bool → Option String → DeadLetterQueue → Bool
is_listed like none reason e = false
is_listed like (some resolved) none e = bool_eq e.resolved resolved
is_listed like (some resolved) (some s) e =
    bool_eq e.resolved resolved && (if truthy s then like s e.failure_reason else true)

module _ {r : Redis} where
  unfoldable pub get_dlq_stats_for :
      (List (String × ℕ) → List (String × ℕ)) → CurrentUser → Action r DlqStats
  unfolding get_dlq_stats
  get_dlq_stats_for most_first u w = elim (require_roles analysts u) [
    | err e ↦ (err e, w)
    | ok _ ↦ (ok (get_dlq_stats most_first w.db.dead_letters), w)
  ]

  unfoldable pub list_dlq_entries :
      (List DeadLetterQueue → List DeadLetterQueue)
      → (String → String → Bool)
      → CurrentUser
      → PaginationParams
      → Option Bool
      → Option String
      → Action r (PaginatedResponse DeadLetterQueue)
  unfolding list_page is_listed
  list_dlq_entries newest_first like u p resolved reason w = elim (require_roles analysts u) [
    | err e ↦ (err e, w)
    | ok _ ↦ (ok (list_page newest_first (is_listed like resolved reason) p w.db.dead_letters), w)
  ]

  unfoldable pub get_dlq_entry : CurrentUser → ℕ → Action r DeadLetterQueue
  get_dlq_entry u id w = elim (require_roles analysts u) [
    | err e ↦ (err e, w)
    | ok _ ↦ elim (get_entry id w.db.dead_letters) [
      | none ↦ (err (http_exception 404), w)
      | some e ↦ (ok e, w)
    ]
  ]

  -- one entry is resolved and its notification queued
  abbrev pub requeue_entry : (Notification → Notification) → DeadLetterQueue → World r → World r
  requeue_entry f e w =
      let db = w.db in
      record w {
        db = record db {
          notifications = update_where_id e.notification_id f db.notifications;
          dead_letters = update_entry e.id (mark_retried w.clock) db.dead_letters;
        };
        tasks = w.tasks ++ send_notification_task e.notification_id ∷ [];
      }

  unfoldable pub retry_dlq_entry : CurrentUser → ℕ → Action r (Unit {0})
  retry_dlq_entry u id w = elim (require_roles admins u) [
    | err e ↦ (err e, w)
    | ok _ ↦ elim (get_entry id w.db.dead_letters) [
      | none ↦ (err (http_exception 404), w)
      | some e ↦
          if e.resolved
          then (err (http_exception 400), w)
          else (ok tt, requeue_entry reset_notification e w)
    ]
  ]

  unfoldable pub discard_dlq_entry : CurrentUser → String → ℕ → Action r (Unit {0})
  discard_dlq_entry u by id w = elim (require_roles admins u) [
    | err e ↦ (err e, w)
    | ok _ ↦ elim (get_entry id w.db.dead_letters) [
      | none ↦ (err (http_exception 404), w)
      | some e ↦ if e.resolved then (err (http_exception 400), w) else (
        ok tt,
        (let db = w.db in
            record w {
              db = record db {
                dead_letters = update_entry e.id (mark_discarded w.clock by) db.dead_letters;
              };
            }),
      )
    ]
  ]

  unfoldable pub requeue_all : List DeadLetterQueue → World r → World r
  requeue_all [] w = w
  requeue_all (e ∷ es) w = requeue_all es (requeue_entry reset_counters e w)

  unfoldable pub bulk_retry_dlq :
      (String → String → Bool) → CurrentUser → Option String → Action r ℕ
  unfolding requeue_all
  bulk_retry_dlq like u reason w = elim (require_roles admins u) [
    | err e ↦ (err e, w)
    | ok _ ↦
        let entries = take 500 (keep (selected like reason) w.db.dead_letters) in
        (ok (length entries), requeue_all entries w)
  ]
