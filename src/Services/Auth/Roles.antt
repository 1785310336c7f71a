-- ===== src/Services/Auth/Roles.antt =====
-- `require_roles`: the check of the caller's role, app/middleware/auth_middleware.py.
use financial_notification_p.Prelude.{◌≡◌, ◌⊎◌, refl, inl, inr, List, any, Bool-cases}
use financial_notification_p.Core.Constants.{UserRole, role_eq}
use financial_notification_p.Core.Exceptions.{ok, err, http_exception}
use financial_notification_p.Services.Auth.{CurrentUser, require_roles}

-- The check lets the caller through, or refuses with 403.
pub require_roles-cases :
    (roles : List UserRole) (u : CurrentUser)
    → (require_roles roles u ≡ ok u) ⊎ (require_roles roles u ≡ err (http_exception 403))
unfolding require_roles
require_roles-cases roles u = elim (Bool-cases (any (role_eq u.role) roles)) [
  | inl allowed ↦ inl (rw allowed refl)
  | inr not_allowed ↦ inr (rw not_allowed refl)
]
