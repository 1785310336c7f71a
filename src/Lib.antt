-- ===== src/Lib.antt =====
-- The financial notification platform (app/): it takes financial events, builds a notification for
-- each channel of a user, holds back what compliance forbids, and delivers the rest with retries.
--
-- Core models app/core: the enumerations, tables, settings, exceptions, and the taxonomy of coded
-- events (event_taxonomy.py), whose functions take the registry as an argument. Models has the rows
-- of app/models and the state that the services share: the database as lists of rows, the Redis
-- store, the tasks that were put on Celery's queues, and the clock. A service call is an action on
-- that state which gives a result or raises. Repositories has the queries of app/repositories.
--
-- The path of an event: Api/Events (POST /events, app/api/v1/endpoints/events.py) publishes it;
-- Kafka/Handlers (app/kafka/handlers.py) reads it, lets Services/Factory
-- (app/services/notification_factory.py, NotificationFactory, with Services/EventArguments,
-- Services/Recipient and Services/NotificationRows) build the rows and Services/Dispatcher
-- (notification_dispatcher.py) settle each of them, with Services/Compliance (compliance_service.py)
-- and Redis/FrequencyCap (app/redis/frequency_cap.py); it commits or restores the database.
-- Celery/Tasks (app/celery/tasks.py, scheduled_tasks.py) sends the queued rows;
-- Services/DeliveryTracking takes the providers' receipts; Api/Notifications and Api/Dlq have the
-- handlers that retry, cancel and resolve, Api/Preferences those of a user's preferences, Api/Users,
-- Api/Templates and Api/DeviceTokens the management of those, Api/Auth the accounts, Api/Admin the
-- operators' requests, and Api/Compliance the reports on the state log (Services/StateLog and
-- Services/Transitions, state_log_service.py). Their listings are those of Schemas/Pagination
-- (schemas/common.py, utils/pagination.py). Localization has the texts in five languages
-- (app/localization), with each table in a module of its own, and Redis/SpecCap the caps by
-- dimension (redis/frequency_cap_v2.py). Kafka/Producer has the topics as lists of what was sent
-- (kafka/producer.py), Rabbitmq the circuit breaker, the publisher with its topology and the
-- consumer (app/rabbitmq), and Services/Auth the tokens and accounts (core/security.py,
-- middleware/auth_middleware.py, services/auth_service.py), Redis/RateLimit the limit of requests
-- (middleware/rate_limit.py), Services/Analytics the daily aggregates
-- (services/analytics_service.py), Services/Template the rendering. Witnesses applies the theorems
-- at concrete inputs.
--
-- What is not code of this repository is a parameter: Redis and the calendar (Redis/Server, with
-- their documented behaviour as laws, and an implementation in memory that satisfies them), the time
-- zones, UUIDs, Jinja2 and the registry of numbers (Services/External), signing and hashing
-- (Services/Auth), the providers (Celery/Tasks), the brokers (Rabbitmq/Publisher, Kafka/Producer),
-- and the order that a set gives its entries (Api/Events).
--
-- UUIDs are numbers, instants are seconds, and counts are unbounded, as Python's are. No function
-- runs on fuel: loops run over the lists that the code runs over. Concurrent sessions are not
-- modelled: actions run one after another. Logging, the channels' providers and their health, the
-- loops that read the queues, the personalisation, the latency column of the aggregates, the
-- dashboard (whose last query cannot be built) and the analytics API are not modelled.
pub mod Prelude
pub mod Core
pub mod Localization
pub mod Schemas
pub mod Redis
pub mod Models
pub mod Repositories
pub mod Services
pub mod Celery
pub mod Kafka
pub mod Rabbitmq
pub mod Api
pub mod Witnesses
