-- ===== src/Redis.antt =====
-- app/redis: the server as an interface, and the frequency caps that are kept in it.
pub mod Server
pub mod FrequencyCap
pub mod SpecCap
pub mod RateLimit
