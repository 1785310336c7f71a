-- ===== src/Api/Users.antt =====
-- app/api/v1/endpoints/users.py and the requests of app/schemas/user.py, as pydantic has checked them. The
-- order of a listing is the database's, and a parameter.
use financial_notification_p.Prelude.{
  ℕ, String, Bool, true, false, not, ◌&&◌, bool_eq, matches, ◌||◌, Option, none, some, List, [],
  ◌∷◌, any, keep, map, ◌==◌, get_or, or_else, is_some, truthy, str_eq, if◌then◌else◌,
}
use financial_notification_p.Core.Constants.{UserRole, Locale, role_eq}
use financial_notification_p.Core.Exceptions.{Result, ok, err, http_exception, integrity_error}
use financial_notification_p.Models.Rows.{
  User, Notification, DeliveryLog, DeadLetterQueue, DeviceToken, NotificationStateLog,
}
use financial_notification_p.Models.World.{Db, World, Action}
use financial_notification_p.Redis.Server.{Redis}
use financial_notification_p.Repositories.Users.{get_user, get_by_phone}
use financial_notification_p.Schemas.Pagination.{PaginationParams, PaginatedResponse, list_page}
use financial_notification_p.Services.Auth.{
  CurrentUser, require_roles, update_user, admins, managers,
}
use financial_notification_p.Api.Notifications.{is_manager}
pub mod Confined

-- A field that the request leaves out is `none`.
pub record UserUpdate : Type 0 where
  pub full_name : Option String
  pub phone : Option String
  pub locale : Option Locale
  pub timezone : Option String
  pub firebase_token : Option String

pub record UserAdminUpdate : Type 0 where
  pub base : UserUpdate
  pub role : Option UserRole
  pub is_active : Option Bool
  pub is_verified : Option Bool

-- `if not updates`
abbrev pub is_empty_update : UserUpdate → Bool
is_empty_update p = not (
    is_some p.full_name
    || (is_some p.phone || (is_some p.locale || (is_some p.timezone || is_some p.firebase_token))))

abbrev pub is_empty_admin_update : UserAdminUpdate → Bool
is_empty_admin_update p =
    is_empty_update p.base && not (is_some p.role || (is_some p.is_active || is_some p.is_verified))

-- `setattr` for each field that the request has
unfoldable pub apply_update : UserUpdate → User → User
apply_update p u = record u {
  full_name = get_or p.full_name u.full_name;
  phone = or_else p.phone u.phone;
  locale = get_or p.locale u.locale;
  timezone = get_or p.timezone u.timezone;
  firebase_token = or_else p.firebase_token u.firebase_token;
}

unfoldable pub apply_admin_update : UserAdminUpdate → User → User
unfolding apply_update
apply_admin_update p u =
    let v = apply_update p.base u in
    record v {
      role = get_or p.role u.role;
      is_active = get_or p.is_active u.is_active;
      is_verified = get_or p.is_verified u.is_verified;
    }

-- `current_user.role in (SUPERADMIN, ADMIN)`
abbrev pub is_admin : CurrentUser → Bool
is_admin u = any (role_eq u.role) admins

-- Another user with this phone, whom `get_by_phone` finds or the unique constraint does.
abbrev pub of_another : ℕ → Option User → Bool
of_another id none = false
of_another id (some u) = not (u.id == id)

abbrev pub phone_in_use : ℕ → Option String → List User → Bool
phone_in_use id none us = false
phone_in_use id (some p) us = if truthy p then of_another id (get_by_phone p us) else false

abbrev pub breaks_unique_phone : ℕ → Option String → List User → Bool
breaks_unique_phone id none us = false
breaks_unique_phone id (some p) us = of_another id (get_by_phone p us)

-- the filters of `list_users`
unfoldable pub is_listed : Option Bool → Option UserRole → User → Bool
is_listed is_active role u =
    matches (bool_eq u.is_active) is_active && matches (role_eq u.role) role

abbrev pub belongs_to : List Notification → ℕ → Bool
belongs_to ns id = any (λ (n : Notification). n.id == id) ns

-- The rows of a query go with their logs, their audit trail and their dead letters, by the foreign keys.
unfoldable pub delete_notifications : (Notification → Bool) → Db → Db
delete_notifications gone db =
    let own = keep gone db.notifications in
    record db {
      notifications = keep (λ (n : Notification). not (gone n)) db.notifications;
      delivery_logs =
          keep (λ (l : DeliveryLog). not (belongs_to own l.notification_id)) db.delivery_logs;
      dead_letters =
          keep (λ (e : DeadLetterQueue). not (belongs_to own e.notification_id)) db.dead_letters;
      state_logs =
          keep (λ (e : NotificationStateLog). not (belongs_to own e.notification_id)) db.state_logs;
    }

-- A user goes with the preferences, the notifications and the device tokens.
unfoldable pub delete_user_rows : ℕ → Db → Db
unfolding delete_notifications
delete_user_rows id db =
    let rest = delete_notifications (λ n. n.user_id == id) db in
    record rest {
      users = keep (λ (u : User). not (u.id == id)) rest.users;
      device_tokens = keep (λ (t : DeviceToken). not (t.user_id == id)) rest.device_tokens;
    }

module _ {r : Redis} where
  unfoldable pub list_users :
      (List User → List User)
      → CurrentUser
      → PaginationParams
      → Option Bool
      → Option UserRole
      → Action r (PaginatedResponse User)
  unfolding list_page is_listed
  list_users newest_first u p is_active role w = elim (require_roles managers u) [
    | err e ↦ (err e, w)
    | ok _ ↦ (ok (list_page newest_first (is_listed is_active role) p w.db.users), w)
  ]

  unfoldable pub get_user_profile : CurrentUser → ℕ → Action r User
  get_user_profile u id w =
      if not (u.user_id == id) && not (is_manager u)
      then (err (http_exception 403), w)
      else elim (get_user id w.db.users) [
        | none ↦ (err (http_exception 404), w)
        | some v ↦ (ok v, w)
      ]

  -- `repo.update(user, updates)`, behind the checks
  abbrev pub write_user : ℕ → (User → User) → User → Option String → Action r User
  write_user id f v phone w =
      if breaks_unique_phone id phone w.db.users
      then (err integrity_error, w)
      else (ok (f v), record w { db = update_user id f w.db })

  unfoldable pub update_user_profile : CurrentUser → UserUpdate → ℕ → Action r User
  unfolding apply_update
  update_user_profile u p id w =
      if not (u.user_id == id) && not (is_admin u)
      then (err (http_exception 403), w)
      else elim (get_user id w.db.users) [
        | none ↦ (err (http_exception 404), w)
        | some v ↦
            if is_empty_update p
            then (ok v, w)
            else if phone_in_use id p.phone w.db.users
            then (err (http_exception 409), w)
            else write_user id (apply_update p) v p.phone w
      ]

  unfoldable pub admin_update_user : CurrentUser → UserAdminUpdate → ℕ → Action r User
  unfolding apply_admin_update
  admin_update_user u p id w = elim (require_roles admins u) [
    | err e ↦ (err e, w)
    | ok _ ↦ elim (get_user id w.db.users) [
      | none ↦ (err (http_exception 404), w)
      | some v ↦
          if is_empty_admin_update p
          then (ok v, w)
          else write_user id (apply_admin_update p) v p.base.phone w
    ]
  ]

  unfoldable pub delete_user : CurrentUser → ℕ → Action r (Unit {0})
  unfolding delete_user_rows
  delete_user u id w = elim (require_roles admins u) [
    | err e ↦ (err e, w)
    | ok _ ↦ elim (get_user id w.db.users) [
      | none ↦ (err (http_exception 404), w)
      | some v ↦ (ok tt, record w { db = delete_user_rows id w.db })
    ]
  ]
