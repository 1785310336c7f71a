-- ===== src/Models/Rows.antt =====
-- app/models: users, notifications, templates, delivery logs, dead letters, device tokens and
-- state logs, each a record of the columns that the modelled code reads or writes. A UUID is its number, an instant a
-- number of seconds, and a JSON object a list of fields with their values as text.
use financial_notification_p.Prelude.{ℕ, String, Bool, Option, List}
use financial_notification_p.Core.Constants.{
  FinancialEventType, NotificationChannel, NotificationStatus, NotificationPriority, UserRole,
  SkipReason, DeliveryStatus, Locale,
}
use financial_notification_p.Models.Preference.{UserPreference}

abbrev pub Json : Type 0
Json = List (String × String)

pub record User : Type 0 where
  pub id : ℕ
  pub email : String
  pub phone : Option String
  pub hashed_password : String
  pub full_name : String
  pub role : UserRole
  pub locale : Locale
  pub timezone : String
  pub is_active : Bool
  pub is_verified : Bool
  pub firebase_token : Option String
  pub last_login_at : Option ℕ
  pub preferences : Option UserPreference

pub record Notification : Type 0 where
  pub id : ℕ
  pub user_id : ℕ
  pub event_type : FinancialEventType
  pub channel : NotificationChannel
  pub status : NotificationStatus
  pub priority : NotificationPriority
  pub subject : Option String
  pub body : String
  pub template_id : Option String
  pub locale : String
  pub recipient : String
  pub event_data : Json
  pub provider_message_id : Option String
  pub retry_count : ℕ
  pub max_retries : ℕ
  pub next_retry_at : Option ℕ
  pub skip_reason : Option SkipReason
  pub sent_at : Option ℕ
  pub delivered_at : Option ℕ
  pub read_at : Option ℕ
  pub error_message : Option String
  pub error_code : Option String
  pub idempotency_key : Option String
  pub created_at : ℕ

pub record NotificationTemplate : Type 0 where
  pub id : ℕ
  pub name : String
  pub event_type : FinancialEventType
  pub channel : NotificationChannel
  pub locale : String
  pub subject : Option String
  pub body : String
  pub html_body : Option String
  pub variables : Option Json
  pub is_active : Bool
  pub version : ℕ
  pub description : Option String

pub record DeliveryLog : Type 0 where
  pub notification_id : ℕ
  pub channel : NotificationChannel
  pub status : DeliveryStatus
  pub provider : String
  pub provider_message_id : Option String
  pub attempt_number : ℕ
  pub sent_at : Option ℕ
  pub delivered_at : Option ℕ
  pub error_message : Option String
  pub error_code : Option String
  pub latency_ms : Option ℕ

pub record DeadLetterQueue : Type 0 where
  pub id : ℕ
  pub notification_id : ℕ
  pub failure_reason : String
  pub retry_count : ℕ
  pub resolved : Bool
  pub resolved_by : Option String
  pub resolved_at : Option ℕ
  pub resolution_action : Option String

pub record DeviceToken : Type 0 where
  pub id : ℕ
  pub user_id : ℕ
  pub token : String
  pub platform : String
  pub device_id : Option String
  pub device_name : Option String
  pub is_active : Bool
  pub last_used_at : Option ℕ

-- The values that the metadata of a state log holds.
pub data JsonValue : Type 0 where
  text : String → JsonValue
  texts : List String → JsonValue
  number : ℕ → JsonValue
  null : JsonValue

abbrev pub Metadata : Type 0
Metadata = List (String × JsonValue)

pub record NotificationStateLog : Type 0 where
  pub notification_id : ℕ
  pub from_status : Option String
  pub to_status : String
  pub actor : String
  pub metadata : Option Metadata
  pub created_at : ℕ
