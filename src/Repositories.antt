-- ===== src/Repositories.antt =====
-- app/repositories: the queries and updates on the tables that the services make. A table is the list
-- of its rows in the order of their insertion.
pub mod Users
pub mod Templates
pub mod Notifications
pub mod Grouping
