-- ===== src/Models.antt =====
-- app/models: the rows of the tables, the tables together, and the state that the services share.
pub mod Rows
pub mod Preference
pub mod World
