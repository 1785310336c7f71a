-- ===== src/Repositories/Notifications.antt =====
-- app/repositories/notification_repository.py, and `get` and `create` of app/repositories/base.py on
-- notifications.
use financial_notification_p.Prelude.{
  ℕ, ◌≡◌, refl, String, Bool, true, false, ◌&&◌, not, Option, none, some, List, [], ◌∷◌, ◌++◌, map,
  keep, find, any, take, length, ltb, leb, ◌==◌, str_eq, is_some, if◌then◌else◌, arith,
}
use mathlib.Core.Option
use financial_notification_p.Core.Constants.{
  NotificationStatus, NotificationChannel, status_eq, channel_eq,
}
use financial_notification_p.Models.Rows.{Notification}
pub mod Rows

abbrev pub get : ℕ → List Notification → Option Notification
get id = find (λ (n : Notification). n.id == id)

-- whether a row has this idempotency key
abbrev pub has_key : String → Option String → Bool
has_key k none = false
has_key k (some j) = str_eq j k

abbrev pub get_by_idempotency_key : String → List Notification → Option Notification
get_by_idempotency_key k = find (λ (n : Notification). has_key k n.idempotency_key)

-- the unique constraint on the key lets any number of rows have none
abbrev pub key_taken : Option String → List Notification → Bool
key_taken none ns = false
key_taken (some k) ns = any (λ (n : Notification). has_key k n.idempotency_key) ns

-- `update(Notification).where(Notification.id == id).values(...)`
unfoldable pub update_where_id :
    ℕ → (Notification → Notification) → List Notification → List Notification
update_where_id id f = map (λ (n : Notification). if n.id == id then f n else n)

-- `update_status(id, status, extra)`, with the extra fields as a function on the row
unfoldable pub update_status :
    ℕ → NotificationStatus → (Notification → Notification) → List Notification → List Notification
unfolding update_where_id
update_status id status extra =
    update_where_id id (λ n. let m = extra n in record m { status = status })

abbrev is_due : ℕ → Option ℕ → Bool
is_due now none = false
is_due now (some t) = leb t now

unfoldable pub get_pending_retries : ℕ → ℕ → List Notification → List Notification
get_pending_retries now limit ns = take limit (
    keep
      (λ (n : Notification).
        status_eq n.status NotificationStatus.retrying
        && (is_due now n.next_retry_at && ltb n.retry_count n.max_retries))
      ns)

unfoldable pub get_unread_count : ℕ → List Notification → ℕ
get_unread_count user_id ns = length (
    keep
      (λ (n : Notification).
        n.user_id == user_id
        && (channel_eq n.channel NotificationChannel.in_app
            && (not (is_some n.read_at) && status_eq n.status NotificationStatus.delivered)))
      ns)

abbrev mem_id : ℕ → List ℕ → Bool
mem_id i ids = any (λ j. j == i) ids

abbrev pub to_mark : List ℕ → ℕ → Notification → Bool
to_mark ids user_id n = mem_id n.id ids && (n.user_id == user_id && not (is_some n.read_at))

-- `mark_as_read`: the new rows, and the number of rows that changed
unfoldable pub mark_as_read : ℕ → List ℕ → ℕ → List Notification → ℕ × List Notification
mark_as_read now ids user_id ns = (
  length (keep (to_mark ids user_id) ns),
  map (λ (n : Notification). if to_mark ids user_id n then record n { read_at = some now } else n)
      ns,
)
