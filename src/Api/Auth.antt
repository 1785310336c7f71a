-- ===== src/Api/Auth.antt =====
-- app/api/v1/endpoints/auth.py: the requests over the authentication service, whose exceptions become
-- statuses.
use financial_notification_p.Prelude.{ℕ, String, Option, none, some}
use financial_notification_p.Core.Config.{Settings}
use financial_notification_p.Core.Constants.{UserRole, Locale}
use financial_notification_p.Core.Exceptions.{
  Exn, Result, ok, err, http_exception, conflict_error, authentication_error,
}
use financial_notification_p.Models.Rows.{User}
use financial_notification_p.Models.World.{Action}
use financial_notification_p.Redis.Server.{Redis}
use financial_notification_p.Repositories.Users.{get_user}
use financial_notification_p.Services.Auth.{
  Crypto, CurrentUser, TokenResponse, register, login, refresh, change_password,
}
use financial_notification_p.Services.External.{External}
pub mod Replies

pub record UserCreate : Type 0 where
  pub email : String
  pub password : String
  pub full_name : String
  pub phone : Option String
  pub locale : Locale
  pub timezone : String

-- `except ConflictError` and `except AuthenticationError`, which raise an `HTTPException`
abbrev pub conflict_as : ℕ → Exn → Exn
conflict_as status conflict_error = http_exception status
conflict_as status e = e

abbrev pub authentication_as : ℕ → Exn → Exn
authentication_as status authentication_error = http_exception status
authentication_as status e = e

module _ {r : Redis} where
  unfoldable pub reraise : {A : Type 0} → (Exn → Exn) → Action r A → Action r A
  reraise f m w =
      let (result, after) = m w in elim result [ ok a ↦ (ok a, after) | err e ↦ (err (f e), after) ]

  unfoldable pub get_me : CurrentUser → Action r User
  get_me u w = elim (get_user u.user_id w.db.users) [
    | none ↦ (err (http_exception 404), w)
    | some v ↦ (ok v, w)
  ]

module _ {r : Redis} (k : Crypto) (x : External) (l : Settings) where
  unfoldable pub register_user : UserCreate → Action r User
  unfolding reraise register
  register_user p =
      reraise (conflict_as 409)
        (register k x l p.email p.password p.full_name p.phone UserRole.user)

  unfoldable pub login_user : String → String → Action r (TokenResponse k)
  unfolding reraise login
  login_user email password = reraise (authentication_as 401) (login k x l email password)

  unfoldable pub refresh_token : k.Token → Action r (TokenResponse k)
  unfolding reraise refresh
  refresh_token token = reraise (authentication_as 401) (refresh k x l token)

  unfoldable pub change_own_password : CurrentUser → String → String → Action r (Unit {0})
  unfolding reraise change_password
  change_own_password u current new =
      reraise (authentication_as 400) (change_password k x l u.user_id current new)
