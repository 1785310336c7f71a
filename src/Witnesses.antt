-- ===== src/Witnesses.antt =====
-- Concrete inputs at which the hypotheses of the theorems hold.
pub mod Fixtures
mod Limits
mod Delivery
mod Events
mod Accounts
mod Breaker
mod SpecCaps
mod Audit
mod Management
mod Operations
