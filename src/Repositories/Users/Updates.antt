-- ===== src/Repositories/Users/Updates.antt =====
-- What a write to the row of one user does to the reads of that row and of the others.
use financial_notification_p.Prelude.{
  ℕ, ◌≡◌, ◌≢◌, refl, List, [], ◌∷◌, map, ◌==◌, arith, if◌then◌else◌,
}
use mathlib.Core.Option
use financial_notification_p.Models.Rows.{User}
use financial_notification_p.Repositories.Users.{get_user}

pub get_user-update :
    (id : ℕ) (f : User → User) (us : List User)
    → ((u : User) → (f u).id ≡ u.id)
    → get_user id (map (λ (u : User). if u.id == id then f u else u) us)
      ≡ Option.map f (get_user id us)
get_user-update id f [] k = refl
get_user-update id f (u ∷ us) k = ground (arith, k u, get_user-update id f us k)

pub get_user-update_ne :
    (k id : ℕ) (f : User → User) (us : List User)
    → ((u : User) → (f u).id ≡ u.id)
    → k ≢ id
    → get_user k (map (λ (u : User). if u.id == id then f u else u) us) ≡ get_user k us
get_user-update_ne k id f [] keeps ne = refl
get_user-update_ne k id f (u ∷ us) keeps ne =
    ground (arith, keeps u, get_user-update_ne k id f us keeps ne)

-- What the write keeps of every row, it keeps of the row that is read.
pub get_user-update_keeps :
    {B : Type 0} (g : User → B) (k id : ℕ) (f : User → User) (us : List User)
    → ((u : User) → (f u).id ≡ u.id)
    → ((u : User) → g (f u) ≡ g u)
    → Option.map g (get_user k (map (λ (u : User). if u.id == id then f u else u) us))
      ≡ Option.map g (get_user k us)
get_user-update_keeps g k id f [] ids keeps = refl
get_user-update_keeps g k id f (u ∷ us) ids keeps =
    ground (arith, ids u, keeps u, get_user-update_keeps g k id f us ids keeps)
