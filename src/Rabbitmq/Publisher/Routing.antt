-- ===== src/Rabbitmq/Publisher/Routing.antt =====
-- Where a message goes, and how urgent the broker takes it to be.
use financial_notification_p.Prelude.{
  ℕ, ◌≡◌, ◌≤◌, some, none, refl, Bool, true, false, get_or, lookup, arith, ◌==◌, if◌then◌else◌,
}
use financial_notification_p.Rabbitmq.Publisher.{
  priority_queue, queue_critical, queue_high, queue_low, queue_medium, bindings, max_priority,
  routing_key, amqp_priority,
}

-- A message of any priority is routed to the queue that PRIORITY_QUEUE_MAP names for it, or to the
-- medium queue when the map has none.
pub routing_key-bound :
    (p : ℕ) → lookup (routing_key p) bindings ≡ some (get_or (priority_queue p) queue_medium)
unfolding routing_key priority_queue
routing_key-bound p = go (p == 1) (p == 2) (p == 3) (p == 5)
  where
    go :
        (a b c d : Bool)
        → lookup
            (if a
              then "critical"
              else if b
              then "high"
              else if c
              then "medium"
              else if d
              then "low"
              else "medium")
            bindings
          ≡ some (
              get_or
                (if a
                  then some queue_critical
                  else if b
                  then some queue_high
                  else if c
                  then some queue_medium
                  else if d
                  then some queue_low
                  else none)
                queue_medium)
    go true b c d = refl
    go false true c d = refl
    go false false true d = refl
    go false false false true = refl
    go false false false false = refl

-- Between the priorities that POST /events admits, the more urgent one has no lower AMQP priority, and
-- any AMQP priority is within the maximum that the queues are declared with.
pub amqp_priority-antitone :
    (p q : ℕ)
    → 1 ≤ p
    → p ≤ q
    → q ≤ 5
    → (amqp_priority q ≤ amqp_priority p) × (amqp_priority p ≤ max_priority)
unfolding amqp_priority
amqp_priority-antitone p q hp pq hq = (ground arith, ground arith)
