-- ===== src/Localization/Table.antt =====
-- The tables of app/localization/translations.py and translations_extended.py.
pub mod English
pub mod Hindi
pub mod Marathi
pub mod Tamil
pub mod Telugu
