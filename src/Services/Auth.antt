-- ===== src/Services/Auth.antt =====
-- app/core/security.py, app/middleware/auth_middleware.py and app/services/auth_service.py. Signing,
-- hashing and `str.lower` are parameters; a token's claims are those that the platform writes.
use financial_notification_p.Prelude.{
  ℕ, ◌≡◌, ◌+◌, ◌*◌, String, Bool, true, false, not, ◌||◌, ◌&&◌, Option, none, some, List, [], ◌∷◌,
  ◌++◌, map, any, ltb, ◌==◌, str_eq, truthy, is_some, if◌then◌else◌,
}
use financial_notification_p.Core.Constants.{UserRole, Locale, role_value, role_of_value, role_eq}
use financial_notification_p.Core.Config.{Settings}
use financial_notification_p.Core.Exceptions.{
  Result, ok, err, http_exception, key_error, value_error, conflict_error, authentication_error,
  not_found_error, integrity_error,
}
use financial_notification_p.Models.Rows.{User}
use financial_notification_p.Models.Preference.{default_preference}
use financial_notification_p.Models.World.{Db, World, Action}
use financial_notification_p.Redis.Server.{Redis}
use financial_notification_p.Repositories.Users.{get_user, get_by_email, get_by_phone}
use financial_notification_p.Services.External.{External}
pub mod Roles
pub mod Tokens
pub mod Accounts

pub record Claims : Type 0 where
  pub sub : Option String
  pub role : Option String
  pub type_ : Option String
  pub exp : Option ℕ

-- Tokens are texts that only `jwt` reads. The signing of a token, the hash of a password, and small letters.
pub record Crypto : Type 1 where
  pub Token : Type 0
  pub encode : Claims → Token
  -- given the instant of the call
  pub decode : ℕ → Token → Option Claims
  pub hash : String → String
  pub verify : String → String → Bool
  pub lower : String → String

-- What jose, passlib and Python document.
pub record CryptoLaws (k : Crypto) : Type 0 where
  pub decode-live :
      (now exp : ℕ) (c : Claims)
      → c.exp ≡ some exp
      → ltb exp now ≡ false
      → k.decode now (k.encode c) ≡ some c
  -- `ExpiredSignatureError`
  pub decode-expired :
      (now exp : ℕ) (c : Claims)
      → c.exp ≡ some exp
      → ltb exp now ≡ true
      → k.decode now (k.encode c) ≡ none
  pub verify-hash : (p : String) → k.verify p (k.hash p) ≡ true

abbrev pub claims : External → String → ℕ → ℕ → UserRole → Claims
claims x kind exp id role = record {
  sub = some (x.uuid_text id);
  role = some (role_value role);
  type_ = some kind;
  exp = some exp;
}

pub record CurrentUser : Type 0 where
  pub user_id : ℕ
  pub role : UserRole

pub record TokenResponse (k : Crypto) : Type 0 where
  pub access_token : k.Token
  pub refresh_token : k.Token
  pub expires_in : ℕ

unfoldable pub is_token_expired : ℕ → Claims → Bool
is_token_expired now c = elim c.exp [ none ↦ true | some t ↦ ltb t now ]

abbrev pub is_type : String → Option String → Bool
is_type kind none = false
is_type kind (some t) = str_eq t kind

unfoldable pub read_subject : External → Option String → Result ℕ
read_subject x none = err key_error
read_subject x (some s) = elim (x.parse_uuid s) [ none ↦ err value_error | some id ↦ ok id ]

unfoldable pub read_role : Option String → Result UserRole
read_role none = err key_error
read_role (some s) = elim (role_of_value s) [ none ↦ err value_error | some r ↦ ok r ]

unfoldable pub read_current_user : External → Claims → Result CurrentUser
read_current_user x c = elim (read_subject x c.sub) [
  | err e ↦ err e
  | ok id ↦ elim (read_role c.role) [
    | err e ↦ err e
    | ok role ↦ ok record { user_id = id; role = role }
  ]
]

module _ (k : Crypto) (x : External) where
  unfoldable pub create_access_token : Settings → ℕ → ℕ → UserRole → k.Token
  create_access_token l now id role =
      k.encode (claims x "access" (now + l.jwt_access_token_expire_minutes * 60) id role)

  unfoldable pub create_refresh_token : Settings → ℕ → ℕ → UserRole → k.Token
  create_refresh_token l now id role =
      k.encode (claims x "refresh" (now + l.jwt_refresh_token_expire_days * 86400) id role)

  unfoldable pub get_current_user : ℕ → k.Token → Result CurrentUser
  get_current_user now token = elim (k.decode now token) [
    | none ↦ err (http_exception 401)
    | some c ↦
        if not (is_type "access" c.type_)
        then err (http_exception 401)
        else if is_token_expired now c
        then err (http_exception 401)
        else read_current_user x c
  ]

-- `require_roles(*roles)` behind `get_current_user`
unfoldable pub require_roles : List UserRole → CurrentUser → Result CurrentUser
require_roles roles user =
    if any (role_eq user.role) roles then ok user else err (http_exception 403)

abbrev pub superadmins : List UserRole
superadmins = UserRole.superadmin ∷ []

abbrev pub admins : List UserRole
admins = UserRole.superadmin ∷ UserRole.admin ∷ []

abbrev pub managers : List UserRole
managers = UserRole.superadmin ∷ UserRole.admin ∷ UserRole.manager ∷ []

abbrev pub analysts : List UserRole
analysts = UserRole.superadmin ∷ UserRole.admin ∷ UserRole.manager ∷ UserRole.analyst ∷ []

abbrev pub new_user : ℕ → String → String → String → Option String → UserRole → User
new_user id email hashed_password full_name phone role = record {
  id = id;
  email = email;
  phone = phone;
  hashed_password = hashed_password;
  full_name = full_name;
  role = role;
  locale = Locale.english;
  timezone = "Asia/Kolkata";
  is_active = true;
  is_verified = false;
  firebase_token = none;
  last_login_at = none;
  preferences = some (default_preference id);
}

abbrev pub phone_taken : Option String → List User → Bool
phone_taken none us = false
phone_taken (some p) us = if truthy p then is_some (get_by_phone p us) else false

-- the unique constraint on the column
abbrev pub phone_conflict : Option String → List User → Bool
phone_conflict none us = false
phone_conflict (some p) us = is_some (get_by_phone p us)

-- `repo.update(user, …)`
abbrev pub update_user : ℕ → (User → User) → Db → Db
update_user id f db = record db {
  users = map (λ (u : User). if u.id == id then f u else u) db.users;
}

module _ (k : Crypto) (x : External) (l : Settings) where
  abbrev pub tokens : ℕ → User → TokenResponse k
  tokens now u = record {
    access_token = create_access_token k x l now u.id u.role;
    refresh_token = create_refresh_token k x l now u.id u.role;
    expires_in = l.jwt_access_token_expire_minutes * 60;
  }

module _ {r : Redis} (k : Crypto) (x : External) (l : Settings) where
  unfoldable pub register : String → String → String → Option String → UserRole → Action r User
  register email password full_name phone role w =
      let u =
        new_user (x.new_uuid (map (λ (v : User). v.id) w.db.users)) (k.lower email)
          (k.hash password) full_name phone role in
      let db = w.db in
      if is_some (get_by_email (k.lower email) w.db.users)
      then (err conflict_error, w)
      else if phone_taken phone w.db.users
      then (err conflict_error, w)
      else if phone_conflict phone w.db.users
      then (err integrity_error, w)
      else (ok u, record w { db = record db { users = db.users ++ u ∷ [] } })

  unfoldable pub login : String → String → Action r (TokenResponse k)
  login email password w = elim (get_by_email (k.lower email) w.db.users) [
    | none ↦ (err authentication_error, w)
    | some u ↦
        if not (k.verify password u.hashed_password)
        then (err authentication_error, w)
        else if not u.is_active
        then (err authentication_error, w)
        else (
          ok (tokens k x l w.clock u),
          record w { db = update_user u.id (λ v. record v { last_login_at = some w.clock }) w.db },
        )
  ]

  -- behind the checks of the token
  unfoldable pub refresh_for : ℕ → Action r (TokenResponse k)
  refresh_for id w = elim (get_user id w.db.users) [
    | none ↦ (err authentication_error, w)
    | some u ↦
        if not u.is_active then (err authentication_error, w) else (ok (tokens k x l w.clock u), w)
  ]

  unfoldable pub refresh : k.Token → Action r (TokenResponse k)
  refresh token w = elim (k.decode w.clock token) [
    | none ↦ (err authentication_error, w)
    | some c ↦
        if not (is_type "refresh" c.type_)
        then (err authentication_error, w)
        else if is_token_expired w.clock c
        then (err authentication_error, w)
        else elim (read_subject x c.sub) [ err e ↦ (err e, w) | ok id ↦ refresh_for id w ]
  ]

  unfoldable pub change_password : ℕ → String → String → Action r (Unit {0})
  change_password id current new w = elim (get_user id w.db.users) [
    | none ↦ (err not_found_error, w)
    | some u ↦ if not (k.verify current u.hashed_password) then (err authentication_error, w) else (
      ok tt,
      record w { db = update_user u.id (λ v. record v { hashed_password = k.hash new }) w.db },
    )
  ]
