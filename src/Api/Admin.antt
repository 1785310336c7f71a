-- ===== src/Api/Admin.antt =====
-- app/api/v1/endpoints/admin.py, less the health of the channels, which asks their providers.
use financial_notification_p.Prelude.{
  ℕ, ◌-◌, ◌*◌, String, Bool, ◌&&◌, Option, none, some, List, [], ◌∷◌, keep, length, map, leb, ltb,
  if◌then◌else◌,
}
use financial_notification_p.Core.Config.{Settings}
use financial_notification_p.Core.Constants.{
  NotificationStatus, NotificationPriority, UserRole, status_eq, priority_value,
}
use financial_notification_p.Core.Exceptions.{Result, ok, err}
use financial_notification_p.Models.Rows.{User, Notification}
use financial_notification_p.Models.World.{World, Action}
use financial_notification_p.Redis.Server.{Redis}
use financial_notification_p.Services.Auth.{
  Crypto, CurrentUser, require_roles, admins, superadmins, register,
}
use financial_notification_p.Services.External.{External}
use financial_notification_p.Services.EventArguments.{text}
use financial_notification_p.Kafka.Handlers.{Payload}
use financial_notification_p.Kafka.Producer.{KafkaBroker, Topics, publish_notification_events}
use financial_notification_p.Api.Auth.{UserCreate, conflict_as, reraise}
use financial_notification_p.Api.Users.{delete_notifications}
pub mod Broadcast
pub mod Purge

-- The rate is `delivered` of `total`, which the code makes a percentage; 0 without notifications is `none`.
pub record Overview : Type 0 where
  pub users : ℕ
  pub active_users : ℕ
  pub total : ℕ
  pub delivered : ℕ
  pub failed : ℕ
  pub dead : ℕ
  pub delivery_rate : Option (ℕ × ℕ)

-- the rows that were made since an instant, with a status
abbrev pub since : ℕ → Notification → Bool
since start n = leb start n.created_at

abbrev pub has_status : ℕ → NotificationStatus → Notification → Bool
has_status start s n = since start n && status_eq n.status s

abbrev pub active : List User → List User
active = keep (λ (u : User). u.is_active)

abbrev pub overview : ℕ → List User → List Notification → Overview
overview start us ns =
    let total = length (keep (since start) ns) in
    let delivered = length (keep (has_status start NotificationStatus.delivered) ns) in
    record {
      users = length us;
      active_users = length (active us);
      total = total;
      delivered = delivered;
      failed = length (keep (has_status start NotificationStatus.failed) ns);
      dead = length (keep (has_status start NotificationStatus.dead) ns);
      delivery_rate = if ltb 0 total then some (delivered, total) else none;
    }

-- what a broadcast puts on Kafka for a user; the type is the text of the request
abbrev pub broadcast_payload : External → String → String → ℕ → Payload
broadcast_payload x event_type message user_id = record {
  user_id = some (x.uuid_text user_id);
  event_type = some event_type;
  priority = text (priority_value NotificationPriority.medium);
  channels = [];
  event_data = ("message", message) ∷ [];
  locale = none;
  idempotency_key = none;
}

-- The number of users, or the exception of the first event that Kafka does not take.
unfoldable pub broadcast_notification :
    External → KafkaBroker → CurrentUser → String → String → List User → Topics → Result ℕ × Topics
unfolding publish_notification_events
broadcast_notification x b u event_type message us t = elim (require_roles superadmins u) [
  | err e ↦ (err e, t)
  | ok _ ↦
      let ps = map (λ (v : User). broadcast_payload x event_type message v.id) (active us) in
      let (result, after) = publish_notification_events b ps t in
      elim result [ ok _ ↦ (ok (length (active us)), after) | err e ↦ (err e, after) ]
]

abbrev pub is_dead : Notification → Bool
is_dead n = status_eq n.status NotificationStatus.dead

module _ {r : Redis} where
  unfoldable pub get_overview_stats : CurrentUser → Action r Overview
  get_overview_stats u w = elim (require_roles admins u) [
    | err e ↦ (err e, w)
    | ok _ ↦ (ok (overview (w.clock - 24 * 3600) w.db.users w.db.notifications), w)
  ]

  unfoldable pub create_admin_user :
      Crypto → External → Settings → CurrentUser → UserCreate → Action r User
  unfolding reraise register
  create_admin_user k x l u p w = elim (require_roles superadmins u) [
    | err e ↦ (err e, w)
    | ok _ ↦
        reraise (conflict_as 409)
          (register k x l p.email p.password p.full_name p.phone UserRole.admin) w
  ]

  -- the number of rows that it deletes
  unfoldable pub purge_dead_letters : CurrentUser → Action r ℕ
  unfolding delete_notifications
  purge_dead_letters u w = elim (require_roles superadmins u) [
    | err e ↦ (err e, w)
    | ok _ ↦ (
      ok (length (keep is_dead w.db.notifications)),
      record w { db = delete_notifications is_dead w.db },
    )
  ]

  -- `FLUSHDB` deletes the keys, all of them.
  unfoldable pub flush_cache : CurrentUser → Action r (Unit {0})
  flush_cache u w = elim (require_roles superadmins u) [
    | err e ↦ (err e, w)
    | ok _ ↦ (ok tt, record w { redis = r.delete_matching (λ k. Bool.true) w.redis })
  ]
