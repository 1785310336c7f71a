-- ===== src/Services/NotificationRows.antt =====
-- app/services/notification_factory.py: the rows that the factory creates, with the defaults of
-- app/models/notification.py.
use financial_notification_p.Prelude.{
  ℕ, String, Option, none, some, List, [], ◌∷◌, ◌++◌, map, get_or,
}
use financial_notification_p.Core.Constants.{
  FinancialEventType, NotificationChannel, NotificationStatus, NotificationPriority, SkipReason,
  channel_max_retries,
}
use financial_notification_p.Models.Rows.{Json, User, Notification}
use financial_notification_p.Models.World.{Db}
use financial_notification_p.Services.External.{External}
use financial_notification_p.Services.Template.{Rendered}
use financial_notification_p.Services.Recipient.{get_recipient, filled}

-- The columns that both kinds of row share, at the defaults of the model.
abbrev pub new_row :
    ℕ
    → ℕ
    → User
    → FinancialEventType
    → NotificationChannel
    → NotificationPriority
    → Json
    → String
    → Option String
    → Notification
new_row id now user event_type channel priority event_data locale key = record {
  id = id;
  user_id = user.id;
  event_type = event_type;
  channel = channel;
  status = NotificationStatus.pending;
  priority = priority;
  subject = none;
  body = "";
  template_id = none;
  locale = locale;
  recipient = "";
  event_data = event_data;
  provider_message_id = none;
  retry_count = 0;
  max_retries = 3;
  next_retry_at = none;
  skip_reason = none;
  sent_at = none;
  delivered_at = none;
  read_at = none;
  error_message = none;
  error_code = none;
  idempotency_key = key;
  created_at = now;
}

-- The dictionaries that `skip` and `_build_single` pass to `create`.
abbrev pub skipped_row :
    External
    → User
    → FinancialEventType
    → NotificationChannel
    → Json
    → String
    → Option String
    → SkipReason
    → NotificationPriority
    → ℕ
    → ℕ
    → Notification
skipped_row x user event_type channel event_data locale key reason p id now =
    let base = new_row id now user event_type channel p event_data locale key in
    record base {
      status = NotificationStatus.skipped;
      recipient = get_or (filled (get_recipient x user channel)) user.email;
      max_retries = 0;
      skip_reason = some reason;
    }

abbrev pub rendered_row :
    External
    → User
    → FinancialEventType
    → NotificationChannel
    → Json
    → String
    → Option String
    → String
    → Rendered
    → NotificationPriority
    → ℕ
    → ℕ
    → Notification
rendered_row x user event_type channel event_data locale key recipient rendered p id now =
    let base = new_row id now user event_type channel p event_data locale key in
    record base {
      recipient = recipient;
      subject = rendered.subject;
      body = rendered.body;
      template_id = some rendered.template_id;
      max_retries = channel_max_retries channel;
    }

abbrev pub ids_of : List Notification → List ℕ
ids_of = map (λ (n : Notification). n.id)

abbrev pub add_row : Notification → Db → Db
add_row n db = record db { notifications = db.notifications ++ n ∷ [] }
