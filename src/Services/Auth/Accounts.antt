-- ===== src/Services/Auth/Accounts.antt =====
-- Registering an account and logging in.
use financial_notification_p.Prelude.{
  ◌≡◌, refl, sym, ap, subst, String, true, false, Option, none, some, [], ◌∷◌, ◌++◌, str_eq,
  eq_refl, arith, map, find-append,
}
use financial_notification_p.Core.Constants.{UserRole}
use financial_notification_p.Core.Config.{Settings}
use financial_notification_p.Core.Exceptions.{ok}
use financial_notification_p.Models.Rows.{User}
use financial_notification_p.Models.World.{World}
use financial_notification_p.Redis.Server.{Redis}
use financial_notification_p.Repositories.Users.{get_by_email}
use financial_notification_p.Services.External.{External}
use financial_notification_p.Services.Auth.{
  Crypto, CryptoLaws, new_user, phone_taken, phone_conflict, register, login, tokens,
}

module _ {r : Redis} (k : Crypto) (laws : CryptoLaws k) (x : External) (l : Settings) where
  -- The account that a registration makes.
  abbrev pub registered : String → String → String → Option String → UserRole → World r → User
  registered email password full_name phone role w =
      new_user (x.new_uuid (map (λ (v : User). v.id) w.db.users)) (k.lower email) (k.hash password)
        full_name phone role

  register-adds :
      (email password full_name : String) (phone : Option String) (role : UserRole) (w : World r)
      → get_by_email (k.lower email) w.db.users ≡ none
      → phone_taken phone w.db.users ≡ false
      → phone_conflict phone w.db.users ≡ false
      → (let u = registered email password full_name phone role w in
          let db = w.db in
          register k x l email password full_name phone role w
          ≡ (ok u, record w { db = record db { users = db.users ++ u ∷ [] } }))
  unfolding register
  register-adds email password full_name phone role w free_email free_phone no_conflict =
      rw (free_email, register) (rw (free_phone, register) (rw (no_conflict, register) refl))

  login-found :
      (email password : String) (u : User) (w : World r)
      → get_by_email (k.lower email) w.db.users ≡ some u
      → k.verify password u.hashed_password ≡ true
      → u.is_active ≡ true
      → (login k x l email password w).0 ≡ ok (tokens k x l w.clock u)
  unfolding login
  login-found email password u w found verified active = rw (found, login) (ground arith)

  -- For hashing as documented: a registration with an address and a phone that nobody has
  -- succeeds, and the one who knows its password can log in right after it, with the same spelling
  -- of the address.
  pub register-login :
      (email password full_name : String) (phone : Option String) (role : UserRole) (w : World r)
      → get_by_email (k.lower email) w.db.users ≡ none
      → phone_taken phone w.db.users ≡ false
      → phone_conflict phone w.db.users ≡ false
      → (let (result, w') = register k x l email password full_name phone role w in
          let u = registered email password full_name phone role w in
          (result ≡ ok u) × ((login k x l email password w').0 ≡ ok (tokens k x l w'.clock u)))
  register-login email password full_name phone role w free_email free_phone no_conflict =
      let u = registered email password full_name phone role w in
      let done =
        register-adds email password full_name phone role w free_email free_phone no_conflict in
      (
        ap (λ q. q.0) done,
        subst (λ (w' : World r). (login k x l email password w').0 ≡ ok (tokens k x l w'.clock u))
            (sym (ap (λ q. q.1) done))
            (login-found email password u
              (let db = w.db in record w { db = record db { users = db.users ++ u ∷ [] } })
              (find-append (λ (v : User). str_eq v.email (k.lower email)) u w.db.users free_email
                (eq_refl (k.lower email)))
              (laws.verify-hash password) refl),
      )
