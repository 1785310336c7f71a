-- ===== src/Services/Auth/Tokens.antt =====
-- What the tokens are good for.
use financial_notification_p.Prelude.{
  ℕ, ◌≡◌, ◌+◌, ◌*◌, refl, String, some, ltb, Bool-cases, inl, inr, if◌then◌else◌,
}
use financial_notification_p.Core.Constants.{UserRole, role_of_value-role_value}
use financial_notification_p.Core.Config.{Settings}
use financial_notification_p.Core.Exceptions.{ok, err, http_exception, authentication_error}
use financial_notification_p.Models.World.{World}
use financial_notification_p.Redis.Server.{Redis}
use financial_notification_p.Services.External.{External}
use financial_notification_p.Services.Auth.{
  Crypto, CryptoLaws, claims, is_token_expired, read_subject, read_role, read_current_user,
  create_access_token, create_refresh_token, get_current_user, refresh,
}

read_current_user-claims :
    (x : External) (kind : String) (exp id : ℕ) (role : UserRole)
    → x.parse_uuid (x.uuid_text id) ≡ some id
    → read_current_user x (claims x kind exp id role) ≡ ok (record { user_id = id; role = role })
unfolding read_current_user read_subject read_role
read_current_user-claims x kind exp id role readable =
    rw (readable, read_current_user) (rw (role_of_value-role_value role, read_current_user) refl)

module _ (k : Crypto) (laws : CryptoLaws k) (x : External) (l : Settings) where
  -- For signing as documented, and an identifier that can be read back: an access token stands for
  -- its user and role until its lifetime has passed, and after that for nobody.
  pub get_current_user-access :
      (now later id : ℕ) (role : UserRole)
      → x.parse_uuid (x.uuid_text id) ≡ some id
      → get_current_user k x later (create_access_token k x l now id role) ≡ (
          if ltb (now + l.jwt_access_token_expire_minutes * 60) later
          then err (http_exception 401)
          else ok (record { user_id = id; role = role }))
  unfolding get_current_user create_access_token is_token_expired
  get_current_user-access now later id role readable =
      let exp = now + l.jwt_access_token_expire_minutes * 60 in
      let c = claims x "access" exp id role in
      elim (Bool-cases (ltb exp later)) [
        | inl dead ↦ rw (laws.decode-expired later exp c refl dead, get_current_user) (rw dead refl)
        | inr live ↦
            rw (laws.decode-live later exp c refl live, get_current_user)
              (rw live (read_current_user-claims x "access" exp id role readable))
      ]

  refresh_token_refused :
      (now later id : ℕ) (role : UserRole)
      → get_current_user k x later (create_refresh_token k x l now id role)
        ≡ err (http_exception 401)
  unfolding get_current_user create_refresh_token
  refresh_token_refused now later id role =
      let exp = now + l.jwt_refresh_token_expire_days * 86400 in
      let c = claims x "refresh" exp id role in
      elim (Bool-cases (ltb exp later)) [
        | inl dead ↦ rw (laws.decode-expired later exp c refl dead, get_current_user) refl
        | inr live ↦ rw (laws.decode-live later exp c refl live, get_current_user) refl
      ]

  access_token_refused :
      {r : Redis} (now id : ℕ) (role : UserRole) (w : World r)
      → refresh k x l (create_access_token k x l now id role) w ≡ (err authentication_error, w)
  unfolding refresh create_access_token
  access_token_refused now id role w =
      let exp = now + l.jwt_access_token_expire_minutes * 60 in
      let c = claims x "access" exp id role in
      elim (Bool-cases (ltb exp w.clock)) [
        | inl dead ↦ rw (laws.decode-expired w.clock exp c refl dead, refresh) refl
        | inr live ↦ rw (laws.decode-live w.clock exp c refl live, refresh) refl
      ]

  -- For signing as documented, the two kinds of token do not stand for each other: whatever the
  -- time, a refresh token opens no request, and no tokens are given for an access token.
  pub tokens_kept_apart :
      {r : Redis} (now later id : ℕ) (role : UserRole) (w : World r)
      → (get_current_user k x later (create_refresh_token k x l now id role)
          ≡ err (http_exception 401))
        × (refresh k x l (create_access_token k x l now id role) w ≡ (err authentication_error, w))
  tokens_kept_apart now later id role w =
      (refresh_token_refused now later id role, access_token_refused now id role w)
