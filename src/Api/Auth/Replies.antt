-- ===== src/Api/Auth/Replies.antt =====
-- What POST /auth/register answers.
use financial_notification_p.Prelude.{
  ◌≡◌, ◌⊎◌, inl, inr, refl, ap, none, some, [], ◌∷◌, ◌++◌, str_eq, eq_refl, find-append, Bool-cases,
  Option-cases, map,
}
use financial_notification_p.Core.Config.{Settings}
use financial_notification_p.Core.Constants.{Locale, UserRole}
use financial_notification_p.Core.Exceptions.{
  Result, Exn, ok, err, http_exception, conflict_error, integrity_error,
}
use financial_notification_p.Models.Rows.{User}
use financial_notification_p.Models.World.{World}
use financial_notification_p.Redis.Server.{Redis}
use financial_notification_p.Repositories.Users.{get_by_email}
use financial_notification_p.Services.Auth.{Crypto, register, new_user, phone_taken, phone_conflict}
use financial_notification_p.Services.External.{External}
use financial_notification_p.Api.Auth.{UserCreate, conflict_as, reraise, register_user}

module _ {r : Redis} {A : Type 0} (f : Exn → Exn) (m : World r → Result A × World r) where
  reraise-ok : {w w' : World r} {a : A} → m w ≡ (ok a, w') → reraise f m w ≡ (ok a, w')
  unfolding reraise
  reraise-ok =
      ap (λ (q : Result A × World r). elim q.0 [ ok b ↦ (ok b, q.1) | err e ↦ (err (f e), q.1) ])

  reraise-err : {w w' : World r} {e : Exn} → m w ≡ (err e, w') → reraise f m w ≡ (err (f e), w')
  unfolding reraise
  reraise-err =
      ap (λ (q : Result A × World r). elim q.0 [ ok b ↦ (ok b, q.1) | err e ↦ (err (f e), q.1) ])

module _ {r : Redis} (k : Crypto) (x : External) (l : Settings) where
  -- the row that a registration adds
  abbrev pub account : UserCreate → World r → User
  account p w =
      new_user (x.new_uuid (map (λ (v : User). v.id) w.db.users)) (k.lower p.email)
        (k.hash p.password) p.full_name p.phone UserRole.user

  abbrev with_account : UserCreate → World r → World r
  with_account p w =
      let db = w.db in record w { db = record db { users = db.users ++ account p w ∷ [] } }

  register_user-taken :
      (p : UserCreate) (w : World r) (v : User)
      → get_by_email (k.lower p.email) w.db.users ≡ some v
      → register_user k x l p w ≡ (err (http_exception 409), w)
  unfolding register_user register
  register_user-taken p w v found =
      reraise-err (conflict_as 409)
        (register k x l p.email p.password p.full_name p.phone UserRole.user) {e = conflict_error}
        (rw (found, register) refl)

  -- every outcome of a registration
  abbrev Registers : UserCreate → World r → Type 0
  Registers p w =
      ((register_user k x l p w ≡ (err (http_exception 409), w))
        ⊎ (register_user k x l p w ≡ (err integrity_error, w)))
      ⊎ (register_user k x l p w ≡ (ok (account p w), with_account p w))
        × (get_by_email (k.lower p.email) w.db.users ≡ none)

  register_user-cases : (p : UserCreate) (w : World r) → Registers p w
  unfolding register_user register
  register_user-cases p w =
      let body = register k x l p.email p.password p.full_name p.phone UserRole.user in
      let refused : (e : Exn)
          → body w ≡ (err e, w)
          → register_user k x l p w ≡ (err (conflict_as 409 e), w) =
        λ e. reraise-err (conflict_as 409) body {e = e} in
      elim (Option-cases (get_by_email (k.lower p.email) w.db.users)) [
        | inr (v, found) ↦ inl (inl (register_user-taken p w v found))
        | inl free ↦ elim (Bool-cases (phone_taken p.phone w.db.users)) [
          | inl taken ↦
              inl (inl (refused conflict_error (rw (free, register) (rw (taken, register) refl))))
          | inr open_ ↦ elim (Bool-cases (phone_conflict p.phone w.db.users)) [
            | inl clash ↦ inl (
                inr (
                  refused integrity_error
                    (rw (free, register) (rw (open_, register) (rw (clash, register) refl)))))
            | inr fits ↦ inr (
              reraise-ok (conflict_as 409) body
                  (rw (free, register) (rw (open_, register) (rw (fits, register) refl))),
              free,
            )
          ]
        ]
      ]

  -- A registration is refused with 409, or by the unique constraint on phones, and changes nothing; or it
  -- adds a row, in English and in the time zone of Kolkata whatever the request asks
  -- for, and a further registration with the address is refused with 409 and changes nothing.
  pub register_user-once :
      (p again : UserCreate) (w : World r)
      → k.lower again.email ≡ k.lower p.email
      → ((register_user k x l p w ≡ (err (http_exception 409), w))
          ⊎ (register_user k x l p w ≡ (err integrity_error, w)))
        ⊎ ((u : User) × (w' : World r) × (register_user k x l p w ≡ (ok u, w'))
            × (w'.db.users ≡ w.db.users ++ u ∷ [])
            × (u.locale ≡ Locale.english)
            × (u.timezone ≡ "Asia/Kolkata")
            × (register_user k x l again w' ≡ (err (http_exception 409), w')))
  register_user-once p again w same = elim (register_user-cases p w) [
    | inl refused ↦ inl refused
    | inr (done, free) ↦ inr (
      account p w,
      with_account p w,
      done,
      refl,
      refl,
      refl,
      register_user-taken again (with_account p w) (account p w) (
          rw same (
            find-append (λ (v : User). str_eq v.email (k.lower p.email)) (account p w) w.db.users
              free (eq_refl (k.lower p.email)))),
    )
  ]
