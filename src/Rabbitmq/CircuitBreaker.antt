-- ===== src/Rabbitmq/CircuitBreaker.antt =====
-- app/rabbitmq/circuit_breaker.py: the dataclass `CircuitBreaker` and the registry of breakers.
-- Times are readings of `time.monotonic()` in whole ticks, `timeout_seconds` and `window_seconds`
-- in the same ticks. A method that reads the clock several times takes each reading.
use financial_notification_p.Prelude.{
  ℕ, ◌+◌, ◌-◌, String, Bool, true, false, Option, none, some, List, [], ◌∷◌, ◌++◌, ltb, leb, length,
  keep, lookup, map, if◌then◌else◌,
}
pub mod Invariant
pub mod Recovery

pub data CircuitState : Type 0 where
  closed open_ half_open : CircuitState

pub record CircuitBreaker : Type 0 where
  pub provider : String
  pub failure_threshold : ℕ
  pub success_threshold : ℕ
  pub timeout_seconds : ℕ
  pub window_seconds : ℕ
  pub state : CircuitState
  pub failure_count : ℕ
  pub success_count : ℕ
  pub last_failure_time : ℕ
  pub opened_at : ℕ
  pub failure_timestamps : List ℕ

-- `CircuitBreaker(provider=provider)`, with the defaults of the dataclass
abbrev pub new_breaker : String → CircuitBreaker
new_breaker p = record {
  provider = p;
  failure_threshold = 5;
  success_threshold = 2;
  timeout_seconds = 60;
  window_seconds = 60;
  state = closed;
  failure_count = 0;
  success_count = 0;
  last_failure_time = 0;
  opened_at = 0;
  failure_timestamps = [];
}

-- `_transition_to_open`, at the clock reading `now`
unfoldable pub transition_to_open : ℕ → CircuitBreaker → CircuitBreaker
transition_to_open now b = record b { state = open_; opened_at = now; success_count = 0 }

unfoldable pub transition_to_half_open : CircuitBreaker → CircuitBreaker
transition_to_half_open b = record b { state = half_open; success_count = 0 }

unfoldable pub transition_to_closed : CircuitBreaker → CircuitBreaker
transition_to_closed b = record b {
  state = closed;
  failure_count = 0;
  success_count = 0;
  failure_timestamps = [];
}

-- `t > now - window`: the cut-off may lie before the clock's start, so it is moved over
abbrev pub is_recent : ℕ → ℕ → ℕ → Bool
is_recent now window t = ltb now (t + window)

-- `_cleanup_old_failures`
unfoldable pub cleanup_old_failures : ℕ → CircuitBreaker → CircuitBreaker
cleanup_old_failures now b = record b {
  failure_timestamps = keep (is_recent now b.window_seconds) b.failure_timestamps;
}

is_open_in : CircuitState → ℕ → CircuitBreaker → Bool × CircuitBreaker
unfolding transition_to_half_open
is_open_in closed now b = (false, b)
is_open_in open_ now b =
    if leb (b.opened_at + b.timeout_seconds) now
    then (false, transition_to_half_open b)
    else (true, b)
is_open_in half_open now b = (false, b)

-- `is_open` may move the breaker to `half_open`, so it returns the new breaker too
unfoldable pub is_open : ℕ → CircuitBreaker → Bool × CircuitBreaker
unfolding is_open_in
is_open now b = is_open_in b.state now b

record_success_in : CircuitState → ℕ → CircuitBreaker → CircuitBreaker
unfolding transition_to_closed cleanup_old_failures
record_success_in half_open now b =
    let c = record b { success_count = b.success_count + 1 } in
    if leb c.success_threshold c.success_count then transition_to_closed c else c
record_success_in closed now b = cleanup_old_failures now b
record_success_in open_ now b = b

unfoldable pub record_success : ℕ → CircuitBreaker → CircuitBreaker
unfolding record_success_in
record_success now b = record_success_in b.state now b

record_failure_in : CircuitState → ℕ → CircuitBreaker → CircuitBreaker
unfolding transition_to_open
record_failure_in half_open now b = transition_to_open now b
record_failure_in closed now b =
    if leb b.failure_threshold b.failure_count then transition_to_open now b else b
record_failure_in open_ now b = b

-- `now` is the first reading, `at_cleanup` that of `_cleanup_old_failures`, and `at_open` that of
-- `_transition_to_open`
unfoldable pub record_failure : ℕ → ℕ → ℕ → CircuitBreaker → CircuitBreaker
unfolding cleanup_old_failures record_failure_in
record_failure now at_cleanup at_open b =
    let c = record b { failure_timestamps = b.failure_timestamps ++ now ∷ [] } in
    let d = cleanup_old_failures at_cleanup c in
    record_failure_in d.state at_open
      (record d { failure_count = length d.failure_timestamps; last_failure_time = now })

-- The global registry `_breakers`: a lookup creates what is missing.
abbrev pub Breakers : Type 0
Breakers = List (String × CircuitBreaker)

unfoldable pub get_circuit_breaker : String → Breakers → CircuitBreaker × Breakers
get_circuit_breaker p bs = elim (lookup p bs) [
  | some b ↦ (b, bs)
  | none ↦ (new_breaker p, bs ++ (p, new_breaker p) ∷ [])
]

pub record CircuitStatus : Type 0 where
  pub provider : String
  pub state : String
  pub failure_count : ℕ
  pub success_count : ℕ
  pub last_failure_time : ℕ

-- the value of the enumeration
abbrev pub state_value : CircuitState → String
state_value closed = "closed"
state_value open_ = "open"
state_value half_open = "half_open"

unfoldable pub get_status : CircuitBreaker → CircuitStatus
get_status b = record {
  provider = b.provider;
  state = state_value b.state;
  failure_count = b.failure_count;
  success_count = b.success_count;
  last_failure_time = b.last_failure_time;
}

unfoldable pub get_all_circuit_breaker_statuses : Breakers → List CircuitStatus
unfolding get_status
get_all_circuit_breaker_statuses = map (λ (e : String × CircuitBreaker). get_status e.1)
