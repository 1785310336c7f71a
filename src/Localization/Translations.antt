-- ===== src/Localization/Translations.antt =====
-- app/localization/translations.py: `translate` and `get_supported_locales`. The merged tables are built
-- at the first call and kept, so they are a constant here.
use financial_notification_p.Prelude.{
  String, List, [], ◌∷◌, ◌++◌, map, Option, none, some, lookup, get_or, str_eq, if◌then◌else◌,
}
use financial_notification_p.Core.Exceptions.{Exn, Result, ok, err, key_error, value_error}
use financial_notification_p.Models.Preference.{Text, codes}
use financial_notification_p.Localization.Table.English.{english}
use financial_notification_p.Localization.Table.Hindi.{hindi}
use financial_notification_p.Localization.Table.Marathi.{marathi}
use financial_notification_p.Localization.Table.Tamil.{tamil}
use financial_notification_p.Localization.Table.Telugu.{telugu}
use financial_notification_p.Localization.Format.{Arguments, format}
pub mod Filled

abbrev pub Strings : Type 0
Strings = List (String × String)

abbrev pub translations : List (String × Strings)
translations = ("en", english) ∷ ("hi", hindi) ∷ []

abbrev pub extended_translations : List (String × Strings)
extended_translations = ("mr", marathi) ∷ ("ta", tamil) ∷ ("te", telugu) ∷ []

-- `merged[locale] = strings`
unfoldable pub set_item : String → Strings → List (String × Strings) → List (String × Strings)
set_item k v [] = (k, v) ∷ []
set_item k v ((j, w) ∷ m) = if str_eq j k then (j, v) ∷ m else (j, w) ∷ set_item k v m

unfoldable pub merge : List (String × Strings) → List (String × Strings) → List (String × Strings)
unfolding set_item
merge merged [] = merged
merge merged ((locale, strings) ∷ rest) = merge (set_item locale strings merged) rest

unfoldable pub get_all : List (String × Strings)
unfolding merge
get_all = merge translations extended_translations

-- `all_t["en"]`, which is always there
unfoldable pub english_strings : Strings
unfolding get_all
english_strings = get_or (lookup "en" get_all) []

-- `all_t.get(locale, all_t["en"])`
unfoldable pub language : String → Strings
unfolding get_all english_strings
language locale = get_or (lookup locale get_all) english_strings

unfoldable pub choose_template : String → String → String
unfolding language english_strings
choose_template key locale =
    get_or (lookup key (language locale)) (get_or (lookup key english_strings) key)

-- `except (KeyError, ValueError): return template`
unfoldable pub or_template : String → Result Text → Result Text
or_template template (ok t) = ok t
or_template template (err key_error) = ok (codes template)
or_template template (err value_error) = ok (codes template)
or_template template (err e) = err e

unfoldable pub translate : String → String → Arguments → Result Text
unfolding choose_template or_template
translate key locale kwargs =
    let template = choose_template key locale in or_template template (format template kwargs)

unfoldable pub get_supported_locales : List String
unfolding get_all
get_supported_locales = map (λ (e : String × Strings). e.0) get_all
