-- ===== src/Core/Constants.antt =====
-- app/core/constants.py: the enumerations (in two children) and the tables over them.
mod Events
mod Enums
mod Tables
unfoldable pub use Events.*
unfoldable pub use Enums.*
unfoldable pub use Tables.*
