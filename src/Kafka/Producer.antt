-- ===== src/Kafka/Producer.antt =====
-- app/kafka/producer.py: `NotificationEventProducer`, over the topics as lists of what was sent. Whether
-- the broker takes a message is a parameter.
use financial_notification_p.Prelude.{
  ℕ, String, Bool, true, false, Option, none, some, List, [], ◌∷◌, ◌++◌, if◌then◌else◌,
}
use financial_notification_p.Core.Exceptions.{Result, ok, err, kafka_publish_error}
use financial_notification_p.Models.Rows.{Json}
use financial_notification_p.Kafka.Handlers.{Payload}
pub mod Sent

-- A message on the topics for status updates, dead letters, analytics and retries.
pub data Notice : Type 0 where
  status_update : (notification_id status : String) (extra : Json) → Notice
  dead_letter : (original : Json) (error : String) → Notice
  analytics_event : Json → Notice
  retry : (payload : Json) (retry_after : ℕ) → Notice

pub record Topics : Type 0 where
  pub notification_events : List Payload
  pub notices : List Notice

-- Whether the broker takes an event, and whether it takes another message.
pub record KafkaBroker : Type 0 where
  pub takes_event : Topics → Payload → Bool
  pub takes_notice : Topics → Notice → Bool

module _ (b : KafkaBroker) where
  unfoldable pub publish_notification_event : Payload → Topics → Result (Unit {0}) × Topics
  publish_notification_event p t =
      if b.takes_event t p
      then (ok tt, record t { notification_events = t.notification_events ++ p ∷ [] })
      else (err kafka_publish_error, t)

  -- the loops of the handlers, which the first exception ends
  unfoldable pub publish_notification_events : List Payload → Topics → Result (Unit {0}) × Topics
  unfolding publish_notification_event
  publish_notification_events [] t = (ok tt, t)
  publish_notification_events (p ∷ ps) t =
      let (result, after) = publish_notification_event p t in
      let rest = publish_notification_events ps after in
      elim result [ ok _ ↦ rest | err e ↦ (err e, after) ]

  abbrev send_notice : Notice → Topics → Bool × Topics
  send_notice n t =
      if b.takes_notice t n then (true, record t { notices = t.notices ++ n ∷ [] }) else (false, t)

  -- `raise KafkaPublishError(...)` where the message is not taken
  abbrev or_raise : Bool × Topics → Result (Unit {0}) × Topics
  or_raise (true, t) = (ok tt, t)
  or_raise (false, t) = (err kafka_publish_error, t)

  unfoldable pub publish_status_update :
      String → String → Option Json → Topics → Result (Unit {0}) × Topics
  publish_status_update id status none t = or_raise (send_notice (status_update id status []) t)
  publish_status_update id status (some extra) t =
      or_raise (send_notice (status_update id status extra) t)

  -- A failure is logged and not raised.
  unfoldable pub publish_to_dlq : Json → String → Topics → Topics
  publish_to_dlq original error t = (send_notice (dead_letter original error) t).1

  unfoldable pub publish_analytics_event : Json → Topics → Topics
  publish_analytics_event payload t = (send_notice (analytics_event payload) t).1

  unfoldable pub publish_retry : Json → ℕ → Topics → Result (Unit {0}) × Topics
  publish_retry payload delay t = or_raise (send_notice (retry payload delay) t)
