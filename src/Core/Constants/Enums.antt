-- ===== src/Core/Constants/Enums.antt =====
-- The enumerations of app/core/constants.py: channels, statuses, priorities and the rest.
use financial_notification_p.Prelude.{
  String, ◌≡◌, refl, Option, some, List, [], ◌∷◌, str_eq, eq_iff, eq_refl, Bool, true, find,
}

pub data NotificationChannel : Type 0 where
  sms email whatsapp push in_app : NotificationChannel

abbrev pub channel_value : NotificationChannel → String
channel_value NotificationChannel.sms = "sms"
channel_value NotificationChannel.email = "email"
channel_value NotificationChannel.whatsapp = "whatsapp"
channel_value NotificationChannel.push = "push"
channel_value NotificationChannel.in_app = "in_app"

abbrev pub all_channels : List NotificationChannel
all_channels =
    NotificationChannel.sms ∷ NotificationChannel.email ∷ NotificationChannel.whatsapp
    ∷ NotificationChannel.push ∷ NotificationChannel.in_app ∷ []

unfoldable pub channel_of_value : String → Option NotificationChannel
channel_of_value s = find (λ c. str_eq (channel_value c) s) all_channels

pub channel_of_value-channel_value :
    (c : NotificationChannel) → channel_of_value (channel_value c) ≡ some c
unfolding channel_of_value
channel_of_value-channel_value NotificationChannel.sms = refl
channel_of_value-channel_value NotificationChannel.email = refl
channel_of_value-channel_value NotificationChannel.whatsapp = refl
channel_of_value-channel_value NotificationChannel.push = refl
channel_of_value-channel_value NotificationChannel.in_app = refl

abbrev pub channel_eq : NotificationChannel → NotificationChannel → Bool
channel_eq a b = str_eq (channel_value a) (channel_value b)

pub data NotificationStatus : Type 0 where
  pending queued processing sent delivered failed retrying dead cancelled : NotificationStatus
  skipped : NotificationStatus

abbrev pub status_value : NotificationStatus → String
status_value NotificationStatus.pending = "pending"
status_value NotificationStatus.queued = "queued"
status_value NotificationStatus.processing = "processing"
status_value NotificationStatus.sent = "sent"
status_value NotificationStatus.delivered = "delivered"
status_value NotificationStatus.failed = "failed"
status_value NotificationStatus.retrying = "retrying"
status_value NotificationStatus.dead = "dead"
status_value NotificationStatus.cancelled = "cancelled"
status_value NotificationStatus.skipped = "skipped"

abbrev pub all_statuses : List NotificationStatus
all_statuses =
    NotificationStatus.pending ∷ NotificationStatus.queued ∷ NotificationStatus.processing
    ∷ NotificationStatus.sent ∷ NotificationStatus.delivered ∷ NotificationStatus.failed
    ∷ NotificationStatus.retrying ∷ NotificationStatus.dead ∷ NotificationStatus.cancelled
    ∷ NotificationStatus.skipped ∷ []

abbrev pub status_eq : NotificationStatus → NotificationStatus → Bool
status_eq a b = str_eq (status_value a) (status_value b)

pub data NotificationPriority : Type 0 where
  critical high medium low : NotificationPriority

abbrev pub priority_value : NotificationPriority → String
priority_value NotificationPriority.critical = "critical"
priority_value NotificationPriority.high = "high"
priority_value NotificationPriority.medium = "medium"
priority_value NotificationPriority.low = "low"

abbrev pub all_priorities : List NotificationPriority
all_priorities =
    NotificationPriority.critical ∷ NotificationPriority.high ∷ NotificationPriority.medium
    ∷ NotificationPriority.low ∷ []

unfoldable pub priority_of_value : String → Option NotificationPriority
priority_of_value s = find (λ c. str_eq (priority_value c) s) all_priorities

pub priority_of_value-priority_value :
    (c : NotificationPriority) → priority_of_value (priority_value c) ≡ some c
unfolding priority_of_value
priority_of_value-priority_value NotificationPriority.critical = refl
priority_of_value-priority_value NotificationPriority.high = refl
priority_of_value-priority_value NotificationPriority.medium = refl
priority_of_value-priority_value NotificationPriority.low = refl

abbrev pub priority_eq : NotificationPriority → NotificationPriority → Bool
priority_eq a b = str_eq (priority_value a) (priority_value b)

pub data UserRole : Type 0 where
  superadmin admin manager analyst user : UserRole

abbrev pub role_value : UserRole → String
role_value UserRole.superadmin = "superadmin"
role_value UserRole.admin = "admin"
role_value UserRole.manager = "manager"
role_value UserRole.analyst = "analyst"
role_value UserRole.user = "user"

abbrev pub all_roles : List UserRole
all_roles =
    UserRole.superadmin ∷ UserRole.admin ∷ UserRole.manager ∷ UserRole.analyst ∷ UserRole.user ∷ []

unfoldable pub role_of_value : String → Option UserRole
role_of_value s = find (λ c. str_eq (role_value c) s) all_roles

pub role_of_value-role_value : (c : UserRole) → role_of_value (role_value c) ≡ some c
unfolding role_of_value
role_of_value-role_value UserRole.superadmin = refl
role_of_value-role_value UserRole.admin = refl
role_of_value-role_value UserRole.manager = refl
role_of_value-role_value UserRole.analyst = refl
role_of_value-role_value UserRole.user = refl

abbrev pub role_eq : UserRole → UserRole → Bool
role_eq a b = str_eq (role_value a) (role_value b)

pub data SkipReason : Type 0 where
  dnd_registered quiet_hours frequency_capped user_opt_out channel_disabled : SkipReason
  invalid_contact : SkipReason

abbrev pub skip_reason_value : SkipReason → String
skip_reason_value SkipReason.dnd_registered = "dnd_registered"
skip_reason_value SkipReason.quiet_hours = "quiet_hours"
skip_reason_value SkipReason.frequency_capped = "frequency_capped"
skip_reason_value SkipReason.user_opt_out = "user_opt_out"
skip_reason_value SkipReason.channel_disabled = "channel_disabled"
skip_reason_value SkipReason.invalid_contact = "invalid_contact"

abbrev pub skip_reason_eq : SkipReason → SkipReason → Bool
skip_reason_eq a b = str_eq (skip_reason_value a) (skip_reason_value b)

pub data DeliveryStatus : Type 0 where
  unknown queued sent delivered failed bounced opened clicked : DeliveryStatus

abbrev pub delivery_status_value : DeliveryStatus → String
delivery_status_value DeliveryStatus.unknown = "unknown"
delivery_status_value DeliveryStatus.queued = "queued"
delivery_status_value DeliveryStatus.sent = "sent"
delivery_status_value DeliveryStatus.delivered = "delivered"
delivery_status_value DeliveryStatus.failed = "failed"
delivery_status_value DeliveryStatus.bounced = "bounced"
delivery_status_value DeliveryStatus.opened = "opened"
delivery_status_value DeliveryStatus.clicked = "clicked"

abbrev pub delivery_status_eq : DeliveryStatus → DeliveryStatus → Bool
delivery_status_eq a b = str_eq (delivery_status_value a) (delivery_status_value b)

pub data Locale : Type 0 where
  english hindi : Locale

abbrev pub locale_value : Locale → String
locale_value Locale.english = "en"
locale_value Locale.hindi = "hi"

abbrev pub locale_eq : Locale → Locale → Bool
locale_eq a b = str_eq (locale_value a) (locale_value b)

pub channel_eq_refl : (c : NotificationChannel) → channel_eq c c ≡ true
channel_eq_refl c = eq_refl (channel_value c)

pub channel_eq_sound : (c d : NotificationChannel) → channel_eq c d ≡ true → c ≡ d
channel_eq_sound c d h =
    let e : channel_value c ≡ channel_value d = (eq_iff (channel_value c) (channel_value d)).0 h in
    cc (channel_of_value-channel_value c, channel_of_value-channel_value d)

pub role_eq_sound : (c d : UserRole) → role_eq c d ≡ true → c ≡ d
role_eq_sound c d h =
    let e : role_value c ≡ role_value d = (eq_iff (role_value c) (role_value d)).0 h in
    cc (role_of_value-role_value c, role_of_value-role_value d)
