-- ===== src/Api/Events.antt =====
-- app/api/v1/endpoints/events.py. Kafka answers or not, RabbitMQ is a broker, `uuid4` gives the
-- identifier, and `list(set(…))` is a parameter, since the order that it gives is not determined.
use financial_notification_p.Prelude.{
  ℕ, ◌≡◌, ◌/◌, String, Bool, true, false, ◌||◌, ◌&&◌, not, Option, none, some, List, [], ◌∷◌, ◌++◌,
  map, length, get_or, lookup, mem_text, min, ltb, leb, ◌==◌, if◌then◌else◌,
}
use financial_notification_p.Core.Exceptions.{Result, ok, err, http_exception, value_error}
use financial_notification_p.Core.Taxonomy.{
  EventDefinition, event_priority_value, taxonomy_channel_value, get_event, get_priority_for_event,
  get_mandatory_channels, is_dnd_exempt, is_quiet_hours_exempt,
}
use financial_notification_p.Models.Rows.{Json}
use financial_notification_p.Services.External.{External}
use financial_notification_p.Services.EventArguments.{number}
use financial_notification_p.Rabbitmq.Publisher.{Message, message, Broker, publish}
use financial_notification_p.Kafka.Handlers.{Payload}
use financial_notification_p.Kafka.Producer.{KafkaBroker, Topics, publish_notification_events}
use financial_notification_p.Services.Auth.{CurrentUser, require_roles, managers}
pub mod Channels
pub mod Ingest

abbrev pub channel_estimated_delivery_ms : List (String × ℕ)
channel_estimated_delivery_ms =
    ("sms", 7000)
    ∷ ("push", 500)
    ∷ ("email", 30000)
    ∷ ("whatsapp", 3500)
    ∷ ("in_app", 100)
    ∷ ("call", 30000)
    ∷ []

pub record EventPayload : Type 0 where
  pub event_type : String
  pub event_id : String
  pub source_system : String
  pub timestamp : ℕ
  pub priority : ℕ
  pub user_id : ℕ
  pub payload : Json
  pub idempotency_key : Option String
  pub channels : Option (List String)

pub record EventIngestionResponse : Type 0 where
  pub notification_id : String
  pub event_id : String
  pub status : String
  pub channels_targeted : List String
  pub estimated_delivery_ms : ℕ

-- `Field(ge=1, le=5)` and the validator
unfoldable pub validate_priority : ℕ → Result ℕ
validate_priority v =
    if not (leb 1 v && leb v 5)
    then err value_error
    else if v == 1 || (v == 2 || (v == 3 || v == 5))
    then ok v
    else err value_error

-- `list(set(xs))`, and what Python says of it: it has the texts of xs.
abbrev pub SetList : Type 0
SetList = List String → List String

abbrev pub KeepsMembers : SetList → Type 0
KeepsMembers set_list = (s : String) (xs : List String) → mem_text s (set_list xs) ≡ mem_text s xs

-- the channels when none are requested
abbrev pub default_targets : List EventDefinition → String → List String
default_targets registry event_type = elim (get_event registry event_type) [
  | none ↦ "push" ∷ "in_app" ∷ []
  | some e ↦ map taxonomy_channel_value e.channels
]

unfoldable pub resolve_channels :
    List EventDefinition → SetList → String → Option (List String) → List String
resolve_channels registry set_list event_type none = default_targets registry event_type
resolve_channels registry set_list event_type (some []) = default_targets registry event_type
resolve_channels registry set_list event_type (some (c ∷ cs)) =
    set_list (c ∷ cs ++ map taxonomy_channel_value (get_mandatory_channels registry event_type))

abbrev pub latency : String → ℕ
latency c = get_or (lookup c channel_estimated_delivery_ms) 10000

-- `min(…)` of a list that is not empty, by its first entry
abbrev pub fastest : String → List String → ℕ
fastest c [] = latency c
fastest c (d ∷ ds) = min (latency c) (fastest d ds)

unfoldable pub estimate_delivery_ms : List String → ℕ → ℕ
estimate_delivery_ms [] priority = 5000
estimate_delivery_ms (c ∷ cs) priority = if priority == 1 then fastest c cs / 2 else fastest c cs

abbrev pub effective_priority : List EventDefinition → EventPayload → ℕ
effective_priority registry p =
    if event_priority_value (get_priority_for_event registry p.event_type) == 1
    then 1
    else p.priority

-- What is published to Kafka: the keys that the consumer reads, and the others.
pub record KafkaEvent : Type 0 where
  pub notification_id : String
  pub event_id : String
  pub event : Payload
  pub bypass_dnd : Bool
  pub bypass_quiet_hours : Bool

pub record Outbox : Type 0 where
  pub kafka : List KafkaEvent
  pub rabbit : List Message

abbrev pub to_payload : External → String → ℕ → ℕ → List String → Json → Option String → Payload
to_payload x event_type priority user_id channels event_data key = record {
  user_id = some (x.uuid_text user_id);
  event_type = some event_type;
  priority = number priority;
  channels = channels;
  event_data = event_data;
  locale = none;
  idempotency_key = key;
}

-- the loop of `publisher.publish`, which the first exception ends; the handler only logs it
unfoldable pub publish_each : Broker → String → ℕ → Json → List String → List Message → List Message
unfolding publish
publish_each accepts id priority body [] sent = sent
publish_each accepts id priority body (c ∷ cs) sent =
    let (result, after) = publish accepts (message id c priority body 0) sent in
    let rest = publish_each accepts id priority body cs after in
    elim result [ ok _ ↦ rest | err _ ↦ after ]

module _ (registry : List EventDefinition) (set_list : SetList) (x : External) where
  abbrev pub event_data : String → EventPayload → KafkaEvent
  event_data id p = record {
    notification_id = id;
    event_id = p.event_id;
    event =
        to_payload x p.event_type (effective_priority registry p) p.user_id
          (resolve_channels registry set_list p.event_type p.channels) p.payload p.idempotency_key;
    bypass_dnd = is_dnd_exempt registry p.event_type;
    bypass_quiet_hours = is_quiet_hours_exempt registry p.event_type;
  }

  -- `ingest_event`: whether Kafka takes the event, the broker, and the identifier that is drawn
  unfoldable pub ingest_event :
      Bool
      → Broker
      → String
      → CurrentUser
      → EventPayload
      → Outbox
      → Result EventIngestionResponse × Outbox
  unfolding publish_each
  ingest_event kafka_up accepts id u p box =
      let channels = resolve_channels registry set_list p.event_type p.channels in
      elim (require_roles managers u) [
        | err e ↦ (err e, box)
        | ok _ ↦ if not kafka_up then (err (http_exception 503), box) else (
          ok record {
            notification_id = id;
            event_id = p.event_id;
            status = "CREATED";
            channels_targeted = channels;
            estimated_delivery_ms = estimate_delivery_ms channels p.priority;
          },
          record {
            kafka = box.kafka ++ event_data id p ∷ [];
            rabbit =
                publish_each accepts id (effective_priority registry p) p.payload channels
                  box.rabbit;
          },
        )
      ]

  -- What the bulk handler puts on Kafka for an event: its own priority, and nothing for the consumer of
  -- the exemptions.
  abbrev pub bulk_payload : EventPayload → Payload
  bulk_payload p =
      to_payload x p.event_type p.priority p.user_id
        (resolve_channels registry set_list p.event_type p.channels) p.payload p.idempotency_key

  -- `bulk_ingest_events`, less the identifiers that it draws: how many events were accepted
  unfoldable pub bulk_ingest_events :
      KafkaBroker → CurrentUser → List EventPayload → Topics → Result ℕ × Topics
  unfolding publish_notification_events
  bulk_ingest_events b u events t = elim (require_roles managers u) [
    | err e ↦ (err e, t)
    | ok _ ↦
        if ltb 10000 (length events)
        then (err (http_exception 400), t)
        else (let (result, after) = publish_notification_events b (map bulk_payload events) t in
            elim result [ ok _ ↦ (ok (length events), after) | err e ↦ (err e, after) ])
  ]
