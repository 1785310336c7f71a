-- ===== src/Witnesses/Fixtures.antt =====
-- The data of the witnesses: a user, a row, a world with them, and concrete functions for what the
-- model takes as parameters.
use financial_notification_p.Prelude.{
  ℕ, suc, ◌+◌, ◌<◌, ◌≡◌, refl, any, arith, true, false, none, some, List, [], ◌∷◌, str_eq, ◌==◌,
  if◌then◌else◌,
}
use financial_notification_p.Core.Constants.{
  FinancialEventType, NotificationChannel, NotificationStatus, NotificationPriority, UserRole,
  Locale,
}
use financial_notification_p.Models.Rows.{User, Notification, DeadLetterQueue}
use financial_notification_p.Models.Preference.{default_preference}
use financial_notification_p.Models.World.{World}
use financial_notification_p.Redis.Server.Memory.{memory, empty}
use financial_notification_p.Services.External.{External, IsFreshUuid}
use financial_notification_p.Celery.Tasks.{ChannelResult}

abbrev pub sum_ids : List ℕ → ℕ
sum_ids [] = 0
sum_ids (i ∷ is) = i + sum_ids is

abbrev pub host : External
host = record {
  uuid_text = λ i. if i == 7 then "u7" else "none";
  parse_uuid = λ s. if str_eq s "u7" then some 7 else none;
  new_uuid = λ ids. suc (sum_ids ids);
  local_hour = λ tz t. some 23;
  dnd_api = λ t phone. none;
  render = λ text fields. some text;
}

none_above : (n : ℕ) (ids : List ℕ) → sum_ids ids < n → any (λ (i : ℕ). i == n) ids ≡ false
none_above n [] h = refl
none_above n (i ∷ is) h = ground (arith, none_above n is)

pub host-IsFreshUuid : IsFreshUuid host
host-IsFreshUuid ids = none_above (suc (sum_ids ids)) ids (omega arith)

abbrev pub asha : User
asha = record {
  id = 7;
  email = "asha@example.com";
  phone = some "900";
  hashed_password = "secret";
  full_name = "Asha";
  role = UserRole.manager;
  locale = Locale.english;
  timezone = "Asia/Kolkata";
  is_active = true;
  is_verified = true;
  firebase_token = none;
  last_login_at = none;
  preferences = some (default_preference 7);
}

abbrev pub first_row : Notification
first_row = record {
  id = 3;
  user_id = 7;
  event_type = FinancialEventType.transaction_success;
  channel = NotificationChannel.email;
  status = NotificationStatus.queued;
  priority = NotificationPriority.medium;
  subject = none;
  body = "text";
  template_id = none;
  locale = "en";
  recipient = "asha@example.com";
  event_data = [];
  provider_message_id = some "m3";
  retry_count = 0;
  max_retries = 3;
  next_retry_at = none;
  skip_reason = none;
  sent_at = none;
  delivered_at = none;
  read_at = none;
  error_message = none;
  error_code = none;
  idempotency_key = none;
  created_at = 0;
}

abbrev pub dead_letter : DeadLetterQueue
dead_letter = record {
  id = 5;
  notification_id = 3;
  failure_reason = "timeout";
  retry_count = 3;
  resolved = false;
  resolved_by = none;
  resolved_at = none;
  resolution_action = none;
}

abbrev pub world_with : Notification → World memory
world_with n = record {
  db = record {
    users = asha ∷ [];
    notifications = n ∷ [];
    templates = [];
    delivery_logs = [];
    dead_letters = dead_letter ∷ [];
    device_tokens = [];
    state_logs = [];
  };
  redis = empty;
  tasks = [];
  clock = 100000;
}

abbrev pub rejected : ChannelResult
rejected = record {
  success = false;
  provider_message_id = none;
  error_message = some "rejected";
  error_code = none;
  latency_ms = none;
}

abbrev pub taken : ChannelResult
taken = record rejected { success = true; provider_message_id = some "m4" }
