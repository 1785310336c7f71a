-- ===== src/Services/Factory.antt =====
-- app/services/notification_factory.py: `NotificationFactory`.
use financial_notification_p.Services.NotificationRows.{
  new_row, skipped_row, rendered_row, ids_of, add_row,
}
use Prim.Native.String.{◌++◌ as str_append}
use financial_notification_p.Prelude.{
  ℕ, String, Bool, true, false, not, Option, none, some, List, [], ◌∷◌, ◌++◌, map, get_or, truthy,
  if◌then◌else◌,
}
use financial_notification_p.Core.Constants.{
  FinancialEventType, NotificationChannel, NotificationStatus, NotificationPriority, SkipReason,
  sms, email, whatsapp, push, in_app, event_value, event_of_value, channel_value, channel_of_value,
  priority_of_value, locale_value, channel_priority_map, channel_max_retries,
}
use financial_notification_p.Core.Exceptions.{
  Result, ok, err, value_error, statement_error, integrity_error,
}
use financial_notification_p.Models.Rows.{Json, User, Notification}
use financial_notification_p.Models.Preference.{UserPreference, codes, mem, get_disabled_events}
use financial_notification_p.Models.World.{
  Db, World, Action, pure, raise, lift, get_db, get_clock, ◌>>=◌, ◌>>◌,
}
use financial_notification_p.Redis.Server.{Redis}
use financial_notification_p.Repositories.Users.{get_user}
use financial_notification_p.Repositories.Notifications.{key_taken}
use financial_notification_p.Services.External.{External}
use financial_notification_p.Services.Template.{Rendered, render}
use financial_notification_p.Services.Recipient.{
  is_channel_enabled, get_recipient, filled, is_opted_out,
}
use financial_notification_p.Services.EventArguments.{
  PriorityArg, PriorityValue, read_priority, default_channels, read_event, read_channels,
  channel_key, target_channels, user_locale, text, number, member, raw,
}
pub mod Built

abbrev pub with_built : Option Notification → List Notification → List Notification
with_built none ns = ns
with_built (some n) ns = n ∷ ns

module _ {r : Redis} (x : External) where
  -- `notification_repo.create(data)`; the database refuses a priority that is not a member
  unfoldable pub create_row :
      PriorityValue → (NotificationPriority → ℕ → ℕ → Notification) → Action r Notification
  create_row (raw _) row w = (err statement_error, w)
  create_row (member p) row w =
      let n = row p (x.new_uuid (ids_of w.db.notifications)) w.clock in
      if key_taken n.idempotency_key w.db.notifications
      then (err integrity_error, w)
      else (ok n, record w { db = add_row n w.db })

  unfoldable pub skip :
      User
      → FinancialEventType
      → NotificationChannel
      → PriorityValue
      → Json
      → String
      → Option String
      → SkipReason
      → Action r (Option Notification)
  skip user event_type channel priority event_data locale key reason = do
    n ← create_row priority (skipped_row x user event_type channel event_data locale key reason)
    pure (some n)

  -- the part of `_build_single` behind the checks
  unfoldable pub build_rendered :
      User
      → FinancialEventType
      → NotificationChannel
      → PriorityValue
      → Json
      → String
      → Option String
      → String
      → Rendered
      → Action r (Option Notification)
  build_rendered user event_type channel priority event_data locale key recipient rendered = do
    n ←
        create_row priority
          (rendered_row x user event_type channel event_data locale key recipient rendered)
    pure (some n)

  unfoldable pub build_single :
      User
      → FinancialEventType
      → NotificationChannel
      → PriorityValue
      → Json
      → String
      → Option String
      → Action r (Option Notification)
  unfolding skip build_rendered
  build_single user event_type channel priority event_data locale key w =
      if not (is_channel_enabled channel user.preferences)
      then skip user event_type channel priority event_data locale key SkipReason.channel_disabled w
      else if is_opted_out event_type user.preferences
      then skip user event_type channel priority event_data locale key SkipReason.user_opt_out w
      else elim (filled (get_recipient x user channel)) [
        | none ↦
            skip user event_type channel priority event_data locale key SkipReason.invalid_contact w
        | some recipient ↦
            elim (render x event_type channel locale event_data user w.db.templates) [
              | none ↦ pure none w
              | some rendered ↦
                  build_rendered user event_type channel priority event_data locale key recipient
                    rendered w
            ]
      ]

  unfoldable pub build_each :
      User
      → FinancialEventType
      → PriorityValue
      → Json
      → String
      → Option String
      → List NotificationChannel
      → Action r (List Notification)
  build_each user event_type priority event_data locale key [] = pure []
  build_each user event_type priority event_data locale key (c ∷ cs) = do
    built ← build_single user event_type c priority event_data locale (channel_key key c)
    rest ← build_each user event_type priority event_data locale key cs
    pure (with_built built rest)

  unfoldable pub build_for :
      User
      → String
      → PriorityArg
      → List String
      → Json
      → Option String
      → Option String
      → Action r (List Notification)
  build_for user event_type priority channels event_data locale key = do
    priority_enum ← lift (read_priority priority)
    event_type_enum ← lift (read_event event_type)
    requested ← lift (read_channels channels)
    build_each user event_type_enum priority_enum event_data (user_locale locale user) key
        (target_channels requested priority_enum)

  -- `build_notifications`; channels that are missing or empty are the empty list
  unfoldable pub build_notifications :
      ℕ
      → String
      → PriorityArg
      → List String
      → Json
      → Option String
      → Option String
      → Action r (List Notification)
  build_notifications user_id event_type priority channels event_data locale key w =
      elim (get_user user_id w.db.users) [
        | none ↦ pure [] w
        | some user ↦
            if not user.is_active
            then pure [] w
            else build_for user event_type priority channels event_data locale key w
      ]
