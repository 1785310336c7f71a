-- ===== src/Services/EventArguments.antt =====
-- app/services/notification_factory.py: how `build_notifications` reads the arguments of an event.
use Prim.Native.String.{◌++◌ as str_append}
use financial_notification_p.Prelude.{
  ℕ, String, Option, none, some, List, [], ◌∷◌, get_or, truthy, if◌then◌else◌,
}
use financial_notification_p.Core.Constants.{
  FinancialEventType, NotificationChannel, NotificationPriority, email, event_of_value,
  channel_value, channel_of_value, priority_of_value, locale_value, channel_priority_map,
}
use financial_notification_p.Core.Exceptions.{Result, ok, err, value_error}
use financial_notification_p.Models.Rows.{User}
use financial_notification_p.Services.Recipient.{filled}

-- `UUID`s, event types, channels and priorities reach the factory as text, but the priority of an
-- event of POST /events, which is a number.
pub data PriorityArg : Type 0 where
  text : String → PriorityArg
  number : ℕ → PriorityArg

-- `NotificationPriority(priority) if isinstance(priority, str) else priority`
pub data PriorityValue : Type 0 where
  member : NotificationPriority → PriorityValue
  raw : ℕ → PriorityValue

unfoldable pub read_priority : PriorityArg → Result PriorityValue
read_priority (text s) = elim (priority_of_value s) [
  | none ↦ err value_error
  | some p ↦ ok (member p)
]
read_priority (number n) = ok (raw n)

-- `CHANNEL_PRIORITY_MAP.get(priority, [EMAIL])`
abbrev pub default_channels : PriorityValue → List NotificationChannel
default_channels (member p) = channel_priority_map p
default_channels (raw _) = email ∷ []

unfoldable pub read_event : String → Result FinancialEventType
read_event s = elim (event_of_value s) [ none ↦ err value_error | some e ↦ ok e ]

unfoldable pub read_channels : List String → Result (List NotificationChannel)
read_channels [] = ok []
read_channels (s ∷ ss) = elim (channel_of_value s) [
  | none ↦ err value_error
  | some c ↦ elim (read_channels ss) [ ok cs ↦ ok (c ∷ cs) | err e ↦ err e ]
]

-- `f"{idempotency_key}:{channel.value}" if idempotency_key else None`
abbrev pub channel_key : Option String → NotificationChannel → Option String
channel_key none c = none
channel_key (some k) c =
    if truthy k then some (str_append (str_append k ":") (channel_value c)) else none

-- `if channels:`: an empty list is as good as none
abbrev pub target_channels : List NotificationChannel → PriorityValue → List NotificationChannel
target_channels [] priority = default_channels priority
target_channels (c ∷ cs) priority = c ∷ cs

-- `locale or (preferences.preferred_locale if preferences else None) or user.locale.value`
abbrev pub user_locale : Option String → User → String
user_locale locale user = get_or (filled locale) (
    get_or (elim user.preferences [ none ↦ none | some p ↦ filled (some p.preferred_locale) ])
      (locale_value user.locale))
