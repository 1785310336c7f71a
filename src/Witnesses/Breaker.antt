-- ===== src/Witnesses/Breaker.antt =====
-- The circuit breaker.
use financial_notification_p.Prelude.{◌≡◌, refl, arith, true, false, [], ◌∷◌}
use financial_notification_p.Rabbitmq.CircuitBreaker.{
  CircuitBreaker, closed, open_, new_breaker, is_open,
}
use financial_notification_p.Rabbitmq.CircuitBreaker.Invariant.{
  ask, failure, run, Inv, new_breaker-Inv, run-Inv,
}
use financial_notification_p.Rabbitmq.CircuitBreaker.Recovery.{
  successes, failures, open_blocks, recovers, opens,
}

-- A breaker that opened at 100.
abbrev opened : CircuitBreaker
opened =
    let b = new_breaker "twilio" in record b { state = open_; opened_at = 100; failure_count = 5 }

run-Inv_example : Inv (run (ask 1 ∷ failure 2 2 2 ∷ []) (new_breaker "twilio"))
run-Inv_example =
    run-Inv (ask 1 ∷ failure 2 2 2 ∷ []) (new_breaker "twilio") (new_breaker-Inv "twilio")

open_blocks_example : (is_open 120 (run (ask 110 ∷ []) opened)).0 ≡ true
open_blocks_example = open_blocks (ask 110 ∷ []) opened 120 refl (omega arith, tt) (omega arith)

opens_example : (run (failures (1 ∷ 2 ∷ 3 ∷ 4 ∷ 5 ∷ [])) (new_breaker "twilio")).state ≡ open_
opens_example =
    opens (1 ∷ 2 ∷ 3 ∷ 4 ∷ 5 ∷ []) 1 5 (new_breaker "twilio") refl refl (omega arith) (omega arith)
      (
        (omega arith, omega arith),
        (
          (omega arith, omega arith),
          (
            (omega arith, omega arith),
            ((omega arith, omega arith), ((omega arith, omega arith), tt)),
          ),
        ),
      )
      refl

recovers_example :
    ((is_open 1000 opened).0 ≡ false)
    × ((run (ask 1000 ∷ successes (1001 ∷ 1002 ∷ [])) opened).state ≡ closed)
    × ((run (ask 1000 ∷ successes (1001 ∷ 1002 ∷ [])) opened).failure_count ≡ 0)
    × ((run (ask 1000 ∷ successes (1001 ∷ 1002 ∷ [])) opened).failure_timestamps ≡ [])
recovers_example = recovers 1000 (1001 ∷ 1002 ∷ []) opened refl (omega arith) (omega arith) refl
