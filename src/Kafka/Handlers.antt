-- ===== src/Kafka/Handlers.antt =====
-- app/kafka/handlers.py. A handler runs in a session of its own: it commits, or after an exception
-- the database is as before, while what was done to Redis and to the task queue stays.
use financial_notification_p.Prelude.{
  ℕ, String, Bool, true, false, Option, none, some, List, [], ◌∷◌, ◌++◌, leb, truthy, is_some,
  if◌then◌else◌,
}
use financial_notification_p.Core.Constants.{NotificationStatus}
use financial_notification_p.Core.Config.{Settings}
use financial_notification_p.Core.Exceptions.{Exn, Result, ok, err, key_error, value_error}
use financial_notification_p.Models.Rows.{Json, Notification}
use financial_notification_p.Models.World.{Db, World, Action, pure, lift, ◌>>=◌, ◌>>◌}
use financial_notification_p.Redis.Server.{Redis, Calendar}
use financial_notification_p.Repositories.Notifications.{get, get_by_idempotency_key, update_status}
use financial_notification_p.Services.External.{External}
use financial_notification_p.Services.EventArguments.{PriorityArg}
use financial_notification_p.Services.Factory.{build_notifications}
use financial_notification_p.Services.Dispatcher.{dispatch, set_row_status}
pub mod Owed
pub mod Settled
pub mod Absent
pub mod Coded

-- The payload of an event, as the consumer decodes it. `user_id` and `event_type` are required: a
-- missing one is a `KeyError`. `priority` has its default put in.
pub record Payload : Type 0 where
  pub user_id : Option String
  pub event_type : Option String
  pub priority : PriorityArg
  pub channels : List String
  pub event_data : Json
  pub locale : Option String
  pub idempotency_key : Option String

unfoldable pub read_user_id : External → Option String → Result ℕ
read_user_id x none = err key_error
read_user_id x (some s) = elim (x.parse_uuid s) [ none ↦ err value_error | some id ↦ ok id ]

unfoldable pub required : Option String → Result String
required none = err key_error
required (some s) = ok s

-- `if idempotency_key:` and a row that has it
unfoldable pub seen_before : Option String → List Notification → Bool
seen_before none ns = false
seen_before (some k) ns = if truthy k then is_some (get_by_idempotency_key k ns) else false

module _ {r : Redis} (x : External) (cal : Calendar) (settings : Settings) where
  unfoldable pub dispatch_each : List Notification → Action r (Unit {0})
  dispatch_each [] = pure tt
  dispatch_each (n ∷ ns) = do dispatch x cal settings n; dispatch_each ns

  unfoldable pub build_and_dispatch : ℕ → String → Payload → Action r (Unit {0})
  unfolding dispatch_each
  build_and_dispatch user_id event_type p = do
    ns ←
        build_notifications x user_id event_type p.priority p.channels p.event_data p.locale
          p.idempotency_key
    dispatch_each ns

  -- the body of the `try` in `NotificationEventHandler.handle`
  unfoldable pub handle_body : Payload → Action r (Unit {0})
  unfolding build_and_dispatch
  handle_body p w = elim (read_user_id x p.user_id) [
    | err e ↦ (err e, w)
    | ok user_id ↦ elim (required p.event_type) [
      | err e ↦ (err e, w)
      | ok event_type ↦
          if seen_before p.idempotency_key w.db.notifications
          then (ok tt, w)
          else build_and_dispatch user_id event_type p w
    ]
  ]

  -- The new state, and whether the payload was put on the dead-letter topic.
  abbrev pub commit_or_rollback : Db → Result (Unit {0}) × World r → Bool × World r
  commit_or_rollback before (ok _, w) = (false, w)
  commit_or_rollback before (err _, w) = (true, record w { db = before })

  unfoldable pub handle : Payload → World r → Bool × World r
  handle p w = commit_or_rollback w.db (handle_body p w)

  -- `RetryEventHandler.handle`, given the identifier as text
  unfoldable pub retry_found : Notification → Action r (Unit {0})
  retry_found n w =
      if leb n.max_retries n.retry_count
      then set_row_status x cal settings n NotificationStatus.dead
          (λ m. record m { error_message = some "Max retries exhausted" }) w
      else dispatch x cal settings n w

  unfoldable pub retry_body : String → Action r (Unit {0})
  unfolding retry_found set_row_status
  retry_body id w = elim (x.parse_uuid id) [
    | none ↦ (err value_error, w)
    | some i ↦ elim (get i w.db.notifications) [ none ↦ (ok tt, w) | some n ↦ retry_found n w ]
  ]

  unfoldable pub handle_retry : Option String → World r → World r
  handle_retry none w = w
  handle_retry (some id) w = if truthy id then (commit_or_rollback w.db (retry_body id w)).1 else w
