-- ===== src/Api/Compliance.antt =====
-- app/api/v1/endpoints/compliance.py: the audit trail and the reports. A date is its number of days, and
-- a day is one of UTC. The order of the rows is the database's, and a parameter. The consent records
-- are rows of a table that no code writes.
use financial_notification_p.Prelude.{
  ℕ, suc, ◌+◌, ◌-◌, ◌*◌, String, Bool, true, false, ◌&&◌, ◌||◌, Option, none, some, List, [], ◌∷◌,
  map, keep, take, length, any, lookup, get_or, leb, ltb, ◌==◌, str_eq, mem_text, if◌then◌else◌,
}
use financial_notification_p.Core.Constants.{
  FinancialEventType, NotificationChannel, NotificationStatus, event_of_value, event_eq, status_eq,
}
use financial_notification_p.Core.Exceptions.{Result, ok, err, statement_error}
use financial_notification_p.Models.Rows.{
  Notification, NotificationStateLog, Metadata, JsonValue, text,
}
use financial_notification_p.Models.World.{World, Action, lift, ◌>>=◌, ◌>>◌, pure}
use financial_notification_p.Redis.Server.{Redis}
use financial_notification_p.Services.Auth.{CurrentUser, require_roles, analysts, admins}
use financial_notification_p.Services.StateLog.{history_of}
pub mod Reports

-- `created_at >= from_dt` and `created_at <= to_dt`, the first and the last instant of two days
unfoldable pub in_dates : ℕ → ℕ → ℕ → Bool
in_dates from to t = leb (from * 86400) t && ltb t (suc to * 86400)

pub record DndCheck : Type 0 where
  pub notification_id : ℕ
  pub dnd_check_timestamp : ℕ
  pub dnd_result : JsonValue
  pub classification : JsonValue
  pub action_taken : String

-- `log.metadata_.get(key, default) if log.metadata_ else default`
unfoldable pub get_metadata : String → JsonValue → Option Metadata → JsonValue
get_metadata key default none = default
get_metadata key default (some fields) = get_or (lookup key fields) default

unfoldable pub dnd_check : NotificationStateLog → DndCheck
unfolding get_metadata
dnd_check e = record {
  notification_id = e.notification_id;
  dnd_check_timestamp = e.created_at;
  dnd_result = get_metadata "dnd_check_result" (text "NOT_REGISTERED") e.metadata;
  classification = get_metadata "classification" (text "TRANSACTIONAL") e.metadata;
  action_taken = e.to_status;
}

unfoldable pub is_dnd_check : ℕ → ℕ → NotificationStateLog → Bool
unfolding in_dates
is_dnd_check from to e = str_eq e.actor "dnd_service" && in_dates from to e.created_at

-- The milliseconds from one instant to another, forward or backward in time.
pub data Elapsed : Type 0 where
  forward backward : ℕ → Elapsed

abbrev pub elapsed_ms : ℕ → ℕ → Elapsed
elapsed_ms from to =
    if leb from to then forward ((to - from) * 1000) else backward ((from - to) * 1000)

abbrev at_most : ℕ → Elapsed → Bool
at_most limit (forward ms) = leb ms limit
at_most limit (backward ms) = true

pub record DeliveryProof : Type 0 where
  pub notification_id : ℕ
  pub event_type : FinancialEventType
  pub channel : NotificationChannel
  pub status : NotificationStatus
  pub created_at : ℕ
  pub sent_at : Option ℕ
  pub delivered_at : Option ℕ
  pub latency_ms : Option Elapsed
  pub within_sebi_timeline_10s : Bool
  pub provider_message_id : Option String

abbrev pub latency : Notification → Option Elapsed
latency n = elim n.delivered_at [ none ↦ none | some t ↦ some (elapsed_ms n.created_at t) ]

unfoldable pub delivery_proof : Notification → DeliveryProof
delivery_proof n = record {
  notification_id = n.id;
  event_type = n.event_type;
  channel = n.channel;
  status = n.status;
  created_at = n.created_at;
  sent_at = n.sent_at;
  delivered_at = n.delivered_at;
  latency_ms = latency n;
  within_sebi_timeline_10s = elim (latency n) [ none ↦ false | some ms ↦ at_most 10000 ms ];
  provider_message_id = n.provider_message_id;
}

-- The texts of `event_type.in_([...])` are bound as labels of the enumeration, which the database
-- refuses where there is no such label.
unfoldable pub bind_event_types : List String → Result (List FinancialEventType)
bind_event_types [] = ok []
bind_event_types (s ∷ ss) = elim (event_of_value s) [
  | none ↦ err statement_error
  | some e ↦ elim (bind_event_types ss) [ err x ↦ err x | ok es ↦ ok (e ∷ es) ]
]

abbrev pub margin_call_events : List String
margin_call_events = "RISK-001" ∷ "RISK-002" ∷ "RISK-003" ∷ []

abbrev pub mandatory_events : List String
mandatory_events =
    "TXNX-001" ∷ "TXNX-002" ∷ "RISK-001" ∷ "RISK-002" ∷ "RISK-003" ∷ "REGX-001" ∷ "REGX-003" ∷ []

unfoldable pub is_selected : List FinancialEventType → ℕ → ℕ → Notification → Bool
unfolding in_dates
is_selected events from to n =
    any (λ e. event_eq e n.event_type) events && in_dates from to n.created_at

-- `metadata_ ->> 'classification' == 'TRANSACTIONAL'`
abbrev pub is_transactional : Option Metadata → Bool
is_transactional none = false
is_transactional (some fields) = elim (lookup "classification" fields) [
  | some (text s) ↦ str_eq s "TRANSACTIONAL"
  | _ ↦ false
]

unfoldable pub is_violation : ℕ → ℕ → NotificationStateLog → Bool
unfolding in_dates
is_violation from to e =
    str_eq e.actor "dnd_service"
    && (str_eq e.to_status "DND_BLOCKED"
        && (is_transactional e.metadata && in_dates from to e.created_at))

-- The delivery rate is kept as a fraction.
pub record SebiReport : Type 0 where
  pub total : ℕ
  pub delivered : ℕ
  pub failed : ℕ
  pub delivery_rate : ℕ × ℕ
  pub dnd_transactional_violations : ℕ
  pub compliance_status : String

unfoldable pub sebi_report :
    List FinancialEventType → ℕ → ℕ → List Notification → List NotificationStateLog → SebiReport
unfolding is_selected is_violation
sebi_report events from to ns logs =
    let mandatory = keep (is_selected events from to) ns in
    let total = length mandatory in
    let delivered =
      length
        (keep (λ (n : Notification). status_eq n.status NotificationStatus.delivered) mandatory) in
    let violations = length (keep (is_violation from to) logs) in
    record {
      total = total;
      delivered = delivered;
      failed = length (
          keep
            (λ (n : Notification).
              status_eq n.status NotificationStatus.failed
              || status_eq n.status NotificationStatus.dead)
            mandatory);
      delivery_rate = (delivered, if ltb 0 total then total else 1);
      dnd_transactional_violations = violations;
      compliance_status = if violations == 0 then "COMPLIANT" else "NON_COMPLIANT";
    }

module _ {r : Redis} where
  unfoldable pub get_audit_trail : CurrentUser → ℕ → Action r (List NotificationStateLog)
  get_audit_trail u id w = elim (require_roles analysts u) [
    | err e ↦ (err e, w)
    | ok _ ↦ (ok (history_of id w.db.state_logs), w)
  ]

  -- The channel that the request names is not looked at.
  unfoldable pub get_dnd_check_report :
      (List NotificationStateLog → List NotificationStateLog)
      → CurrentUser
      → ℕ
      → ℕ
      → String
      → Action r (List DndCheck)
  unfolding is_dnd_check dnd_check
  get_dnd_check_report newest_first u from to channel w = elim (require_roles analysts u) [
    | err e ↦ (err e, w)
    | ok _ ↦ (
      ok (map dnd_check (take 10000 (newest_first (keep (is_dnd_check from to) w.db.state_logs)))),
      w,
    )
  ]

  unfoldable pub get_margin_call_delivery_proof :
      (List Notification → List Notification) → CurrentUser → ℕ → ℕ → Action r (List DeliveryProof)
  unfolding bind_event_types is_selected delivery_proof
  get_margin_call_delivery_proof newest_first u from to w = elim (require_roles analysts u) [
    | err e ↦ (err e, w)
    | ok _ ↦ elim (bind_event_types margin_call_events) [
      | err e ↦ (err e, w)
      | ok events ↦ (
        ok (
            map delivery_proof
              (take 5000 (newest_first (keep (is_selected events from to) w.db.notifications)))),
        w,
      )
    ]
  ]

  unfoldable pub get_sebi_audit_report : CurrentUser → ℕ → ℕ → Action r SebiReport
  unfolding bind_event_types sebi_report
  get_sebi_audit_report u from to w = elim (require_roles admins u) [
    | err e ↦ (err e, w)
    | ok _ ↦ elim (bind_event_types mandatory_events) [
      | err e ↦ (err e, w)
      | ok events ↦ (ok (sebi_report events from to w.db.notifications w.db.state_logs), w)
    ]
  ]
