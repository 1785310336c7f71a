-- ===== src/Celery.antt =====
-- app/celery: the tasks that send notifications and retry them, and those that run on a schedule.
pub mod Tasks
