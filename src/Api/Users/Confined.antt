-- ===== src/Api/Users/Confined.antt =====
-- What users can change without being administrators.
use financial_notification_p.Prelude.{
  ℕ, ◌≡◌, ◌≢◌, ◌⊎◌, ◌∙◌, refl, sym, ap, String, Bool, false, ◌==◌, inl, inr, Bool-cases,
  Option-cases, arith,
}
use mathlib.Core.Option
use financial_notification_p.Core.Constants.{UserRole}
use financial_notification_p.Models.Rows.{User}
use financial_notification_p.Models.World.{World}
use financial_notification_p.Redis.Server.{Redis}
use financial_notification_p.Repositories.Users.{get_user}
use financial_notification_p.Repositories.Users.Updates.{get_user-update_ne, get_user-update_keeps}
use financial_notification_p.Services.Auth.{CurrentUser, update_user}
use financial_notification_p.Api.Users.{UserUpdate, is_admin, apply_update, update_user_profile}

-- What a user may do, and what the user logs in with.
pub record Rights : Type 0 where
  pub email : String
  pub hashed_password : String
  pub role : UserRole
  pub is_active : Bool
  pub is_verified : Bool

abbrev pub rights : User → Rights
rights u = record {
  email = u.email;
  hashed_password = u.hashed_password;
  role = u.role;
  is_active = u.is_active;
  is_verified = u.is_verified;
}

apply_update-id : (p : UserUpdate) (u : User) → (apply_update p u).id ≡ u.id
unfolding apply_update
apply_update-id p u = refl

apply_update-rights : (p : UserUpdate) (u : User) → rights (apply_update p u) ≡ rights u
unfolding apply_update
apply_update-rights p u = refl

module _ {r : Redis} (u : CurrentUser) (p : UserUpdate) (id : ℕ) (w : World r) where
  -- One who is no administrator leaves the world as it was, or writes the own row.
  update_user_profile_cases :
      is_admin u ≡ false
      → ((update_user_profile u p id w).1 ≡ w)
        ⊎ ((u.user_id ≡ id)
            × ((update_user_profile u p id w).1
                ≡ record w { db = update_user id (apply_update p) w.db }))
  unfolding update_user_profile
  update_user_profile_cases ordinary = elim (Bool-cases (u.user_id == id)) [
    | inr other ↦ inl (ground arith)
    | inl own ↦ elim (Option-cases (get_user id w.db.users)) [
      | inl missing ↦ inl (ground arith)
      | inr (v, found) ↦ ground arith
    ]
  ]

  -- Whatever profile is sent for whatever user by one who is no administrator: the rows of the others
  -- are as before, and nobody's address, password, role or state of activity changes.
  pub update_user_profile-confined :
      (k : ℕ)
      → is_admin u ≡ false
      → (let users' = (update_user_profile u p id w).1.db.users in
          (k ≢ u.user_id → get_user k users' ≡ get_user k w.db.users)
          × (Option.map rights (get_user k users') ≡ Option.map rights (get_user k w.db.users)))
  update_user_profile-confined k ordinary = elim (update_user_profile_cases ordinary) [
    | inl same ↦ (
      λ ne. ap (λ (v : World r). get_user k v.db.users) same,
      ap (λ (v : World r). Option.map rights (get_user k v.db.users)) same,
    )
    | inr (own, written) ↦ (
      λ ne.
          ap (λ (v : World r). get_user k v.db.users) written
          ∙ get_user-update_ne k id (apply_update p) w.db.users (apply_update-id p)
              (λ e. ne (e ∙ sym own)),
      ap (λ (v : World r). Option.map rights (get_user k v.db.users)) written
          ∙ get_user-update_keeps rights k id (apply_update p) w.db.users (apply_update-id p)
              (apply_update-rights p),
    )
  ]
