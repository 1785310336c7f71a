-- ===== src/Services.antt =====
-- app/services: the compliance checks, building and dispatching notifications.
pub mod External
pub mod Compliance
pub mod Template
pub mod Recipient
pub mod EventArguments
pub mod NotificationRows
pub mod Factory
pub mod Dispatcher
pub mod DeliveryTracking
pub mod Analytics
pub mod Auth
pub mod Transitions
pub mod StateLog
