-- ===== src/Api.antt =====
-- app/api/v1/endpoints: the handlers of the HTTP interface.
pub mod Events
pub mod Dlq
pub mod Notifications
pub mod Preferences
pub mod Compliance
pub mod Users
pub mod Auth
pub mod Admin
pub mod Templates
pub mod DeviceTokens
