-- ===== src/Localization.antt =====
-- app/localization: the texts in five languages, and their lookup with a fallback to English.
pub mod Table
pub mod Format
pub mod Translations
