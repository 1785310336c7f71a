-- ===== src/Api/Events/Ingest.antt =====
-- What POST /events puts on Kafka and on RabbitMQ, and what the consumer makes of it.
use financial_notification_p.Prelude.{
  ℕ, ◌≡◌, refl, sym, ◌∙◌, String, Bool, true, false, none, some, List, [], ◌∷◌, ◌++◌, map, inl, inr,
  ◌⊎◌,
}
use mathlib.Core.List.{append-nil, append_assoc}
use financial_notification_p.Core.Constants.{event_of_value}
use financial_notification_p.Prelude.{Bool-cases, subst, ap}
use financial_notification_p.Services.Auth.{CurrentUser, require_roles, managers}
use financial_notification_p.Services.Auth.Roles.{require_roles-cases}
use financial_notification_p.Core.Config.{Settings}
use financial_notification_p.Core.Exceptions.{Result, ok, err, http_exception, connection_error}
use financial_notification_p.Core.Taxonomy.{EventDefinition}
use financial_notification_p.Models.Rows.{Json, User}
use financial_notification_p.Models.World.{World}
use financial_notification_p.Redis.Server.{Redis, Calendar}
use financial_notification_p.Repositories.Users.{get_user}
use financial_notification_p.Services.External.{External}
use financial_notification_p.Rabbitmq.Publisher.{Message, message, Broker, publish}
use financial_notification_p.Kafka.Handlers.{handle, seen_before, read_user_id}
use financial_notification_p.Kafka.Handlers.Coded.{handle_unknown_event}
use financial_notification_p.Api.Events.{
  SetList, EventPayload, Outbox, event_data, effective_priority, resolve_channels, publish_each,
  ingest_event,
}

-- The broker takes all of these messages, each after those before it.
abbrev pub Accepts : Broker → List Message → List Message → Type 0
Accepts accepts sent [] = Unit
Accepts accepts sent (m ∷ ms) = (accepts sent m ≡ true) × Accepts accepts (sent ++ m ∷ []) ms

-- The broker refuses the first of these messages, if there is one.
abbrev pub Stops : Broker → List Message → List Message → Type 0
Stops accepts sent [] = Unit
Stops accepts sent (m ∷ ms) = accepts sent m ≡ false

-- The messages reach the broker up to the first that it refuses.
abbrev pub Published : Broker → List Message → List Message → List Message → Type 0
Published accepts ms sent after =
    (taken rest : List Message) × (ms ≡ taken ++ rest)
    × Accepts accepts sent taken
    × Stops accepts (sent ++ taken) rest
    × (after ≡ sent ++ taken)

module _ (accepts : Broker) (id : String) (priority : ℕ) (body : Json) where
  abbrev pub messages : List String → List Message
  messages = map (λ c. message id c priority body 0)

  publish_one :
      (c : String) (cs : List String) (sent : List Message)
      {reply : Result (Unit {0}) × List Message}
      → publish accepts (message id c priority body 0) sent ≡ reply
      → publish_each accepts id priority body (c ∷ cs) sent
        ≡ elim reply.0 [ ok _ ↦ publish_each accepts id priority body cs reply.1 | err _ ↦ reply.1 ]
  unfolding publish_each
  publish_one c cs sent = ap (λ (q : Result (Unit {0}) × List Message). elim q.0 [
    | ok _ ↦ publish_each accepts id priority body cs q.1
    | err _ ↦ q.1
  ])

  publish_each-Published :
      (cs : List String) (sent : List Message)
      → Published accepts (messages cs) sent (publish_each accepts id priority body cs sent)
  unfolding publish_each publish
  publish_each-Published [] sent = ([], [], refl, tt, tt, sym (append-nil sent))
  publish_each-Published (c ∷ cs) sent =
      let m = message id c priority body 0 in
      elim (Bool-cases (accepts sent m)) [
        | inr refused ↦ (
          [],
          messages (c ∷ cs),
          refl,
          tt,
          subst (λ ms. accepts ms m ≡ false) (sym (append-nil sent)) refused,
          publish_one c cs sent {reply = (err connection_error, sent)} (rw (refused, publish) refl)
              ∙ sym (append-nil sent),
        )
        | inl accepted ↦
            let (taken, rest, split, all, stops, after) =
              publish_each-Published cs (sent ++ m ∷ []) in
            let assoc = append_assoc sent (m ∷ []) taken in
            (
              m ∷ taken,
              rest,
              ap (λ ms. m ∷ ms) split,
              (accepted, all),
              subst (λ ms. Stops accepts ms rest) assoc stops,
              publish_one c cs sent {reply = (ok tt, sent ++ m ∷ [])} (rw (accepted, publish) refl)
                  ∙ after
                  ∙ assoc,
            )
      ]

abbrev pub is_ok : {A : Type 0} → Result A → Bool
is_ok (ok _) = true
is_ok (err _) = false

read_user_id_known :
    (x : External) (s : String) (i : ℕ) → x.parse_uuid s ≡ some i → read_user_id x (some s) ≡ ok i
unfolding read_user_id
read_user_id_known x s i readable = rw (readable, read_user_id)

module _ (registry : List EventDefinition) (set_list : SetList) (x : External) where
  -- POST /events refuses a user who is no manager with 403, and answers 503 when Kafka is down, and then
  -- publishes nothing; or it puts exactly the event on Kafka, and a message for each of its channels on
  -- RabbitMQ, in their order, up to the first that the broker refuses, and the answer is a success.
  pub ingest_event-publishes :
      (kafka_up : Bool) (accepts : Broker) (id : String) (u : CurrentUser) (p : EventPayload)
      (box : Outbox)
      → (let reply = ingest_event registry set_list x kafka_up accepts id u p box in
          ((require_roles managers u ≡ err (http_exception 403))
            × (reply ≡ (err (http_exception 403), box)))
          ⊎ ((require_roles managers u ≡ ok u)
              × (kafka_up ≡ false)
              × (reply ≡ (err (http_exception 503), box)))
          ⊎ ((require_roles managers u ≡ ok u)
              × (kafka_up ≡ true)
              × (is_ok reply.0 ≡ true)
              × (reply.1.kafka ≡ box.kafka ++ event_data registry set_list x id p ∷ [])
              × Published accepts
                  (messages accepts id
                    (effective_priority registry p)
                    p.payload
                    (resolve_channels registry set_list p.event_type p.channels))
                  box.rabbit
                  reply.1.rabbit))
  unfolding ingest_event
  ingest_event-publishes false accepts id u p box = elim (require_roles-cases managers u) [
    | inr not_allowed ↦ inl (not_allowed, rw (not_allowed, ingest_event) refl)
    | inl allowed ↦ inr (inl (allowed, refl, rw (allowed, ingest_event) refl))
  ]
  ingest_event-publishes true accepts id u p box = elim (require_roles-cases managers u) [
    | inr not_allowed ↦ inl (not_allowed, rw (not_allowed, ingest_event) refl)
    | inl allowed ↦ inr (
        inr (
          allowed,
          refl,
          rw (allowed, ingest_event) refl,
          rw (allowed, ingest_event) refl,
          rw (allowed, ingest_event)
              (publish_each-Published accepts id (effective_priority registry p) p.payload
                (resolve_channels registry set_list p.event_type p.channels) box.rabbit),
        ))
  ]

  -- What POST /events puts on Kafka for a code that is not a value of `FinancialEventType` comes to
  -- nothing: for a user who exists and is active, and a key that was not used before, the consumer puts it
  -- on the dead-letter topic and leaves the database, Redis and the task queue as they were.
  pub event_data_dead_letters :
      {r : Redis} (cal : Calendar) (settings : Settings) (id : String) (p : EventPayload)
      (w : World r) (u : User)
      → event_of_value p.event_type ≡ none
      → x.parse_uuid (x.uuid_text p.user_id) ≡ some p.user_id
      → seen_before p.idempotency_key w.db.notifications ≡ false
      → get_user p.user_id w.db.users ≡ some u
      → u.is_active ≡ true
      → handle x cal settings (event_data registry set_list x id p).event w ≡ (true, w)
  event_data_dead_letters cal settings id p w u unknown readable new found active =
      handle_unknown_event x cal settings (event_data registry set_list x id p).event w p.user_id u
        p.event_type refl unknown (read_user_id_known x (x.uuid_text p.user_id) p.user_id readable)
        new found active
