-- ===== src/Core.antt =====
-- app/core: constants, settings and exceptions.
pub mod Constants
pub mod Config
pub mod Exceptions
pub mod Taxonomy
