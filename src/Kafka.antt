-- ===== src/Kafka.antt =====
-- app/kafka: the handlers of the events that the consumer takes from the topics.
pub mod Handlers
pub mod Producer
