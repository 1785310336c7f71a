-- ===== src/Kafka/Producer/Sent.antt =====
-- What a loop of publishing leaves on the topic.
use financial_notification_p.Prelude.{
  ℕ, suc, ◌≡◌, ◌<◌, ◌⊎◌, inl, inr, refl, sym, ap, ◌∙◌, List, [], ◌∷◌, ◌++◌, take, length, arith,
  Bool-cases,
}
use mathlib.Core.List.{append-nil, append_assoc}
use financial_notification_p.Core.Exceptions.{Result, ok, err, kafka_publish_error}
use financial_notification_p.Kafka.Handlers.{Payload}
use financial_notification_p.Kafka.Producer.{
  KafkaBroker, Topics, publish_notification_event, publish_notification_events,
}

abbrev pub with_events : List Payload → Topics → Topics
with_events ps t = record t { notification_events = t.notification_events ++ ps }

-- The outcome of publishing events in order: all of them, or those before the first that Kafka refuses.
abbrev pub Sent : List Payload → Topics → Result (Unit {0}) × Topics → Type 0
Sent ps t reply =
    (reply ≡ (ok tt, with_events ps t))
    ⊎ ((n : ℕ) × (n < length ps) × (reply ≡ (err kafka_publish_error, with_events (take n ps) t)))

module _ (b : KafkaBroker) where
  sent_one :
      (p : Payload) (ps : List Payload) (t : Topics) {reply : Result (Unit {0}) × Topics}
      → publish_notification_event b p t ≡ reply
      → publish_notification_events b (p ∷ ps) t ≡ elim reply.0 [
        | ok _ ↦ publish_notification_events b ps reply.1
        | err e ↦ (err e, reply.1)
      ]
  unfolding publish_notification_events
  sent_one p ps t = ap (λ (q : Result (Unit {0}) × Topics). elim q.0 [
    | ok _ ↦ publish_notification_events b ps q.1
    | err e ↦ (err e, q.1)
  ])

  pub publish_notification_events-Sent :
      (ps : List Payload) (t : Topics) → Sent ps t (publish_notification_events b ps t)
  unfolding publish_notification_events publish_notification_event
  publish_notification_events-Sent [] t = inl (
      ap (λ es. (ok tt, record t { notification_events = es }))
        (sym (append-nil t.notification_events)))
  publish_notification_events-Sent (p ∷ ps) t = elim (Bool-cases (b.takes_event t p)) [
    | inr refused ↦ inr (
      0,
      omega arith,
      sent_one p ps t {reply = (err kafka_publish_error, t)}
            (rw (refused, publish_notification_event) refl)
          ∙ ap (λ es. (err kafka_publish_error, record t { notification_events = es }))
              (sym (append-nil t.notification_events)),
    )
    | inl taken ↦
        let assoc = append_assoc t.notification_events (p ∷ []) in
        let first =
          sent_one p ps t {reply = (ok tt, with_events (p ∷ []) t)}
            (rw (taken, publish_notification_event) refl) in
        elim (publish_notification_events-Sent ps (with_events (p ∷ []) t)) [
          | inl q ↦
              inl (first ∙ q ∙ ap (λ es. (ok tt, record t { notification_events = es })) (assoc ps))
          | inr (n, lt, q) ↦ inr (
            suc n,
            omega (arith, lt),
            first
                ∙ q
                ∙ ap (λ es. (err kafka_publish_error, record t { notification_events = es }))
                    (assoc (take n ps)),
          )
        ]
  ]
