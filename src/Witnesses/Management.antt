-- ===== src/Witnesses/Management.antt =====
-- The handlers on users and templates.
use financial_notification_p.Prelude.{ℕ, ◌≡◌, ◌≢◌, refl, true, none, some, [], ◌∷◌}
use mathlib.Core.Option
use financial_notification_p.Core.Constants.{FinancialEventType, NotificationChannel, UserRole}
use financial_notification_p.Core.Exceptions.{ok, err, http_exception}
use financial_notification_p.Models.Rows.{NotificationTemplate}
use financial_notification_p.Models.World.{World}
use financial_notification_p.Redis.Server.Memory.{memory}
use financial_notification_p.Repositories.Users.{get_user}
use financial_notification_p.Services.Auth.{CurrentUser, require_roles, admins}
use financial_notification_p.Api.Users.{UserUpdate, update_user_profile}
use financial_notification_p.Api.Users.Confined.{rights, update_user_profile-confined}
use financial_notification_p.Api.Templates.{TemplateCreate, create_template}
use financial_notification_p.Api.Templates.Creation.{create_template-blocked}
use financial_notification_p.Witnesses.Fixtures.{host, asha, first_row, world_with}

abbrev asha_as_user : CurrentUser
asha_as_user = record { user_id = 7; role = UserRole.user }

abbrev renamed : UserUpdate
renamed = record {
  full_name = some "Asha K";
  phone = none;
  locale = none;
  timezone = none;
  firebase_token = none;
}

update_user_profile-confined_example :
    let users' = (update_user_profile asha_as_user renamed 7 (world_with first_row)).1.db.users in
    (◌≢◌ {A = ℕ} 8 7 → get_user 8 users' ≡ get_user 8 (asha ∷ []))
    × (Option.map rights (get_user 8 users') ≡ Option.map rights (get_user 8 (asha ∷ [])))
update_user_profile-confined_example =
    update_user_profile-confined asha_as_user renamed 7 (world_with first_row) 8 refl

abbrev english_welcome : NotificationTemplate
english_welcome = record {
  id = 1;
  name = "welcome";
  event_type = FinancialEventType.welcome;
  channel = NotificationChannel.email;
  locale = "en";
  subject = none;
  body = "Welcome";
  html_body = none;
  variables = none;
  is_active = true;
  version = 1;
  description = none;
}

abbrev in_hindi : TemplateCreate
in_hindi = record {
  name = "welcome in Hindi";
  event_type = FinancialEventType.welcome;
  channel = NotificationChannel.email;
  locale = "hi";
  subject = none;
  body = "Swagat";
  html_body = none;
  variables = none;
  description = none;
}

abbrev with_template : World memory
with_template =
    let w = world_with first_row in
    let db = w.db in record w { db = record db { templates = english_welcome ∷ [] } }

abbrev administrator : CurrentUser
administrator = record { user_id = 7; role = UserRole.admin }

may_create : require_roles admins administrator ≡ ok administrator
unfolding require_roles
may_create = refl

create_template-blocked_example :
    create_template host administrator in_hindi with_template
    ≡ (err (http_exception 409), with_template)
create_template-blocked_example =
    create_template-blocked host administrator in_hindi with_template english_welcome may_create
      refl refl
