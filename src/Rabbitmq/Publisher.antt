-- ===== src/Rabbitmq/Publisher.antt =====
-- app/rabbitmq/publisher.py, and the names and bindings of app/rabbitmq/client.py. The broker is a
-- parameter: whether it takes a message after those it has taken.
use financial_notification_p.Prelude.{
  get_or, ℕ, String, Bool, Option, none, some, List, [], ◌∷◌, ◌++◌, ◌==◌, if◌then◌else◌,
}
use financial_notification_p.Core.Exceptions.{Result, ok, err, connection_error}
use financial_notification_p.Models.Rows.{Json}
pub mod Routing

abbrev pub queue_critical : String
queue_critical = "notifications.critical"

abbrev pub queue_high : String
queue_high = "notifications.high"

abbrev pub queue_medium : String
queue_medium = "notifications.medium"

abbrev pub queue_low : String
queue_low = "notifications.low"

-- PRIORITY_QUEUE_MAP
unfoldable pub priority_queue : ℕ → Option String
priority_queue p =
    if p == 1
    then some queue_critical
    else if p == 2
    then some queue_high
    else if p == 3
    then some queue_medium
    else if p == 5
    then some queue_low
    else none

-- The bindings of the direct exchange that `setup_topology` declares, by routing key.
abbrev pub bindings : List (String × String)
bindings =
    ("critical", queue_critical)
    ∷ ("high", queue_high)
    ∷ ("medium", queue_medium)
    ∷ ("low", queue_low)
    ∷ []

-- `x-max-priority` of the queues
abbrev pub max_priority : ℕ
max_priority = 10

-- `PRIORITY_ROUTING_MAP.get(priority, "medium")`
unfoldable pub routing_key : ℕ → String
routing_key p =
    if p == 1
    then "critical"
    else if p == 2
    then "high"
    else if p == 3
    then "medium"
    else if p == 5
    then "low"
    else "medium"

unfoldable pub amqp_priority : ℕ → ℕ
amqp_priority p =
    if p == 1 then 9 else if p == 2 then 7 else if p == 3 then 5 else if p == 5 then 2 else 5

pub record Message : Type 0 where
  pub notification_id : String
  pub channel : String
  pub priority : ℕ
  pub retry_count : ℕ
  pub event_data : Json
  pub amqp : ℕ
  pub routing : String

abbrev pub message : String → String → ℕ → Json → ℕ → Message
message notification_id channel priority event_data retry_count = record {
  notification_id = notification_id;
  channel = channel;
  priority = priority;
  retry_count = retry_count;
  event_data = event_data;
  amqp = amqp_priority priority;
  routing = routing_key priority;
}

abbrev pub Broker : Type 0
Broker = List Message → Message → Bool

unfoldable pub publish : Broker → Message → List Message → Result (Unit {0}) × List Message
publish accepts m sent =
    if accepts sent m then (ok tt, sent ++ m ∷ []) else (err connection_error, sent)

-- An entry of a batch: its priority where it has one, and the rest of what is sent.
pub record BatchEntry : Type 0 where
  pub notification_id : String
  pub channel : String
  pub priority : Option ℕ
  pub event_data : Json

-- `notif.get("priority", 3)`
abbrev pub batch_message : BatchEntry → Message
batch_message n = message n.notification_id n.channel (get_or n.priority 3) n.event_data 0

-- The first message that the broker does not take ends the batch.
unfoldable pub publish_batch :
    Broker → List BatchEntry → List Message → Result (Unit {0}) × List Message
unfolding publish
publish_batch accepts [] sent = (ok tt, sent)
publish_batch accepts (n ∷ ns) sent =
    let (result, after) = publish accepts (batch_message n) sent in
    let rest = publish_batch accepts ns after in
    elim result [ ok _ ↦ rest | err e ↦ (err e, after) ]
