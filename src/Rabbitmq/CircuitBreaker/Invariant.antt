-- ===== src/Rabbitmq/CircuitBreaker/Invariant.antt =====
-- What holds of a breaker between any two calls, whatever the outcomes and the clock.
use financial_notification_p.Prelude.{
  ℕ, ◌≤◌, ◌<◌, ◌≡◌, String, List, [], ◌∷◌, length, length-keep, arith,
}
use financial_notification_p.Rabbitmq.CircuitBreaker.{
  CircuitBreaker, closed, open_, half_open, new_breaker, is_open, record_success, record_failure,
  is_recent,
}

-- A call on a breaker, with its clock readings.
pub data Call : Type 0 where
  ask : ℕ → Call
  success : ℕ → Call
  failure : ℕ → ℕ → ℕ → Call

abbrev pub after : Call → CircuitBreaker → CircuitBreaker
after (ask t) b = (is_open t b).1
after (success t) b = record_success t b
after (failure t u v) b = record_failure t u v b

abbrev pub run : List Call → CircuitBreaker → CircuitBreaker
run [] b = b
run (c ∷ cs) b = run cs (after c b)

pub record Inv (b : CircuitBreaker) : Type 0 where
  pub below_threshold : b.state ≡ closed → length b.failure_timestamps < b.failure_threshold
  pub testing : b.state ≡ half_open → b.success_count < b.success_threshold
  pub idle : b.state ≡ closed → b.success_count ≡ 0
  pub blocked : b.state ≡ open_ → b.success_count ≡ 0
  pub counted : length b.failure_timestamps ≤ b.failure_count
  pub thresholds : (0 < b.failure_threshold) × (0 < b.success_threshold)

pub new_breaker-Inv : (p : String) → Inv (new_breaker p)
new_breaker-Inv p = ground arith

after-Inv : (c : Call) (b : CircuitBreaker) → Inv b → Inv (after c b)
unfolding is_open record_success record_failure
after-Inv (ask t) b h = ground arith
after-Inv (success t) b h =
    ground (arith, length-keep (is_recent t b.window_seconds) b.failure_timestamps)
after-Inv (failure t u v) b h = ground arith

-- Whatever calls are made, in whatever order and at whatever instants, a breaker that satisfies the
-- invariant goes on to satisfy it: closed it has fewer failures on record than its threshold, half-open
-- it has fewer successes than its threshold, closed or open it has no success counted, and it never
-- has more failures on record than counted.
pub run-Inv : (cs : List Call) (b : CircuitBreaker) → Inv b → Inv (run cs b)
run-Inv [] b h = h
run-Inv (c ∷ cs) b h = run-Inv cs (after c b) (after-Inv c b h)
