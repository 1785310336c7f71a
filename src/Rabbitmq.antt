-- ===== src/Rabbitmq.antt =====
-- app/rabbitmq: the circuit breaker of the providers.
pub mod CircuitBreaker
pub mod Publisher
pub mod Consumer
