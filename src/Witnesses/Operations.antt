-- ===== src/Witnesses/Operations.antt =====
-- Registration, broadcasts, the purge.
use financial_notification_p.Prelude.{◌≡◌, ◌⊎◌, refl, true, none, [], ◌∷◌, ◌++◌}
use financial_notification_p.Core.Config.{default_settings}
use financial_notification_p.Core.Constants.{Locale, NotificationStatus, UserRole}
use financial_notification_p.Core.Exceptions.{ok, err, http_exception, integrity_error}
use financial_notification_p.Models.Rows.{User}
use financial_notification_p.Models.World.{World}
use financial_notification_p.Redis.Server.Memory.{memory}
use financial_notification_p.Services.Auth.{CurrentUser, require_roles}
use financial_notification_p.Services.StateLog.{get_history, record_created}
use financial_notification_p.Kafka.Producer.{KafkaBroker, Topics}
use financial_notification_p.Api.Auth.{UserCreate, register_user}
use financial_notification_p.Api.Auth.Replies.{register_user-once}
use financial_notification_p.Api.Admin.{purge_dead_letters}
use financial_notification_p.Api.Admin.Purge.{purge_dead_letters-erases}
use financial_notification_p.Witnesses.Accounts.{plain}
use financial_notification_p.Witnesses.Fixtures.{host, first_row, world_with}

abbrev ravi : UserCreate
ravi = record {
  email = "ravi@example.com";
  password = "Secret123";
  full_name = "Ravi";
  phone = none;
  locale = Locale.hindi;
  timezone = "Asia/Dubai";
}

register_user-once_example :
    let w = world_with first_row in
    let register = register_user plain host default_settings in
    ((register ravi w ≡ (err (http_exception 409), w))
      ⊎ (register ravi w ≡ (err integrity_error, w)))
    ⊎ ((u : User) × (w' : World memory) × (register ravi w ≡ (ok u, w'))
        × (w'.db.users ≡ w.db.users ++ u ∷ [])
        × (u.locale ≡ Locale.english)
        × (u.timezone ≡ "Asia/Kolkata")
        × (register ravi w' ≡ (err (http_exception 409), w')))
register_user-once_example =
    register_user-once plain host default_settings ravi ravi (world_with first_row) refl

abbrev superadmin : CurrentUser
superadmin = record { user_id = 1; role = UserRole.superadmin }

abbrev no_events : Topics
no_events = record { notification_events = []; notices = [] }

abbrev all_taken : KafkaBroker
all_taken = record { takes_event = λ t p. true; takes_notice = λ t n. true }

-- A notification that died, with its first entry in the audit trail.
abbrev died : World memory
died = (record_created 3 (world_with (record first_row { status = NotificationStatus.dead }))).1

purge_dead_letters-erases_example : (get_history 3 (purge_dead_letters superadmin died).1).0 ≡ ok []
unfolding require_roles record_created
purge_dead_letters-erases_example = purge_dead_letters-erases superadmin 3 died refl
