-- ===== src/Rabbitmq/Consumer/Undelivered.antt =====
-- What becomes of the messages that POST /events puts on RabbitMQ.
use financial_notification_p.Prelude.{
  ℕ, ◌≡◌, ◌≢◌, refl, sym, ap, subst, ◌∙◌, String, Bool, some, List, [], ◌∷◌, ◌++◌, map, All, inl,
  inr,
}
use mathlib.Core.List.{append-nil}
use financial_notification_p.Core.Config.{Settings}
use financial_notification_p.Core.Exceptions.{ok}
use financial_notification_p.Core.Taxonomy.{EventDefinition}
use financial_notification_p.Models.Rows.{Json}
use financial_notification_p.Models.World.{World, send_notification_task}
use financial_notification_p.Redis.Server.{Redis, Calendar}
use financial_notification_p.Rabbitmq.Publisher.{Broker, Message, message}
use financial_notification_p.Rabbitmq.Consumer.{process_delivery_message}
use financial_notification_p.Services.External.{External}
use financial_notification_p.Services.Auth.{CurrentUser}
use financial_notification_p.Celery.Tasks.{Provider, send_notification, not_found}
use financial_notification_p.Kafka.Handlers.{handle}
use financial_notification_p.Kafka.Handlers.Absent.{IsAbsent, handle-IsAbsent}
use financial_notification_p.Api.Events.{
  SetList, EventPayload, Outbox, effective_priority, resolve_channels, event_data, ingest_event,
}
use financial_notification_p.Api.Events.Ingest.{messages, ingest_event-publishes}

module _ {r : Redis} (x : External) (send : Provider) (id : ℕ) (w : World r) where
  -- The consumer queues a sending task for the message, which finds no notification and changes nothing.
  abbrev pub IsLost : Message → Type 0
  IsLost m =
      let (taken, w') = process_delivery_message x m w in
      (taken ≡ ok tt)
      × (w' ≡ record w { tasks = w.tasks ++ send_notification_task id ∷ [] })
      × (send_notification send id w' ≡ (not_found, w'))

  message-IsLost :
      (channel : String) (priority : ℕ) (body : Json)
      → IsAbsent id w
      → x.parse_uuid (x.uuid_text id) ≡ some id
      → IsLost (message (x.uuid_text id) channel priority body 0)
  unfolding process_delivery_message send_notification
  message-IsLost channel priority body absent reads =
      rw (reads, process_delivery_message) (refl, refl, rw (absent, send_notification) refl)

module _ {A : Type 0} (P : A → Type 0) where
  All-map : {B : Type 0} (f : B → A) → ((b : B) → P (f b)) → (bs : List B) → All P (map f bs)
  All-map f each [] = tt
  All-map f each (b ∷ bs) = (each b, All-map f each bs)

  All-prefix : (us vs : List A) → All P (us ++ vs) → All P us
  All-prefix [] vs all = tt
  All-prefix (u ∷ us) vs (first, rest) = (first, All-prefix us vs rest)

module _ (registry : List EventDefinition) (set_list : SetList) (x : External) where
  -- For an identifier that no row has, that the factory does not draw again, and whose text can be read
  -- back: all that POST /events puts on RabbitMQ under it is lost, also after the Kafka consumer has handled
  -- the same event. The consumer of RabbitMQ queues a sending task for each message, and that task finds
  -- no notification and changes nothing.
  pub ingest_event-IsLost :
      {r : Redis} (cal : Calendar) (settings : Settings) (send : Provider) (kafka_up : Bool)
      (accepts : Broker) (id : ℕ) (u : CurrentUser) (p : EventPayload) (box : Outbox) (w : World r)
      → IsAbsent id w
      → ((ids : List ℕ) → x.new_uuid ids ≢ id)
      → x.parse_uuid (x.uuid_text id) ≡ some id
      → (let box' =
            (ingest_event registry set_list x kafka_up accepts (x.uuid_text id) u p box).1 in
          let event = (event_data registry set_list x (x.uuid_text id) p).event in
          (ms : List Message) × (box'.rabbit ≡ box.rabbit ++ ms)
          × All (IsLost x send id (handle x cal settings event w).1) ms)
  ingest_event-IsLost cal settings send kafka_up accepts id u p box w absent differs reads =
      let event = (event_data registry set_list x (x.uuid_text id) p).event in
      let w' = (handle x cal settings event w).1 in
      let cs = resolve_channels registry set_list p.event_type p.channels in
      let ms = messages accepts (x.uuid_text id) (effective_priority registry p) p.payload cs in
      let lost : All (IsLost x send id w') ms =
        All-map (IsLost x send id w') _
          (λ c.
            message-IsLost x send id w' c (effective_priority registry p) p.payload
              (handle-IsAbsent id x differs cal settings event w absent) reads)
          cs in
      elim (ingest_event-publishes registry set_list x kafka_up accepts (x.uuid_text id) u p box) [
        | inl (_, refused) ↦ ([], ap (λ q. q.1.rabbit) refused ∙ sym (append-nil box.rabbit), tt)
        | inr (inl (_, _, down)) ↦ ([], ap (λ q. q.1.rabbit) down ∙ sym (append-nil box.rabbit), tt)
        | inr (inr (_, _, _, _, (taken, rest, split, _, _, after))) ↦ (
          taken,
          after,
          All-prefix (IsLost x send id w') taken rest
              (subst (All (IsLost x send id w')) split lost),
        )
      ]
