-- ===== src/Schemas.antt =====
-- app/schemas and app/utils, as far as they compute.
pub mod Pagination
