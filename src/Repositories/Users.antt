-- ===== src/Repositories/Users.antt =====
-- app/repositories/user_repository.py and the generic reads of app/repositories/base.py on users.
use financial_notification_p.Prelude.{
  ℕ, String, Bool, Option, none, some, List, ◌==◌, str_eq, find, if◌then◌else◌, map,
}
use financial_notification_p.Models.Rows.{User}
use financial_notification_p.Models.Preference.{UserPreference, default_preference}
pub mod Updates

-- `get`, `get_with_preferences`: the row with this primary key
abbrev pub get_user : ℕ → List User → Option User
get_user id = find (λ (u : User). u.id == id)

abbrev pub get_by_email : String → List User → Option User
get_by_email email = find (λ (u : User). str_eq u.email email)

abbrev has_phone : String → Option String → Bool
has_phone phone none = Bool.false
has_phone phone (some p) = str_eq p phone

abbrev pub get_by_phone : String → List User → Option User
get_by_phone phone = find (λ (u : User). has_phone phone u.phone)

abbrev with_preferences : UserPreference → Option UserPreference → Option UserPreference
with_preferences d none = some d
with_preferences d (some p) = some p

-- `ensure_preferences`: a user without a row of preferences gets one with the defaults
unfoldable pub ensure_preferences : ℕ → List User → List User
ensure_preferences id = map (λ (u : User).
    if u.id == id
    then record u { preferences = with_preferences (default_preference id) u.preferences }
    else u)
