-- ===== src/Services/Transitions.antt =====
-- app/services/state_log_service.py: what its methods `record_...` record.
use financial_notification_p.Prelude.{ℕ, String, Option, none, some, List, [], ◌∷◌}
use Prim.Native.String.{◌++◌ as append}
use financial_notification_p.Models.Rows.{JsonValue, text, texts, number, null, Metadata}

pub record Transition : Type 0 where
  pub from_status : Option String
  pub to_status : String
  pub actor : String
  pub metadata : Option Metadata

abbrev text_or_null : Option String → JsonValue
text_or_null none = null
text_or_null (some s) = text s

abbrev number_or_null : Option ℕ → JsonValue
number_or_null none = null
number_or_null (some n) = number n

-- The transitions that the methods `record_...` record.
unfoldable pub created : Transition
created = record {
  from_status = none;
  to_status = "CREATED";
  actor = "event_ingestion";
  metadata = none;
}

unfoldable pub enriched : List String → Transition
enriched channels = record {
  from_status = some "CREATED";
  to_status = "ENRICHED";
  actor = "enrichment_worker";
  metadata = some (("channels_resolved", texts channels) ∷ []);
}

unfoldable pub routed : String → String → Transition
routed channel routing_key = record {
  from_status = some "ENRICHED";
  to_status = "ROUTED";
  actor = "routing_engine";
  metadata = some (("channel", text channel) ∷ ("routing_key", text routing_key) ∷ []);
}

unfoldable pub queued : String → Transition
queued queue = record {
  from_status = some "ROUTED";
  to_status = "QUEUED";
  actor = "rabbitmq_publisher";
  metadata = some (("queue", text queue) ∷ []);
}

unfoldable pub sent : String → Option String → Transition
sent provider external_id = record {
  from_status = some "QUEUED";
  to_status = "SENT";
  actor = append provider "_delivery_worker";
  metadata = some (("provider", text provider) ∷ ("external_id", text_or_null external_id) ∷ []);
}

unfoldable pub delivered : String → Option ℕ → Transition
delivered provider latency_ms = record {
  from_status = some "SENT";
  to_status = "DELIVERED";
  actor = "dlr_webhook_handler";
  metadata = some (("provider", text provider) ∷ ("latency_ms", number_or_null latency_ms) ∷ []);
}

unfoldable pub failed : String → Option String → Transition
failed reason error_code = record {
  from_status = none;
  to_status = "FAILED";
  actor = "delivery_worker";
  metadata = some (("reason", text reason) ∷ ("error_code", text_or_null error_code) ∷ []);
}

unfoldable pub retrying : ℕ → ℕ → Transition
retrying attempt next_retry_seconds = record {
  from_status = some "FAILED";
  to_status = "RETRYING";
  actor = "retry_worker";
  metadata =
      some
        (("attempt", number attempt) ∷ ("next_retry_in_seconds", number next_retry_seconds) ∷ []);
}

unfoldable pub dead : ℕ → Transition
dead total_attempts = record {
  from_status = some "RETRYING";
  to_status = "DLQ";
  actor = "retry_worker";
  metadata =
      some
        (("total_attempts", number total_attempts) ∷ ("reason", text "max_retries_exhausted") ∷ []);
}

unfoldable pub capped : String → Transition
capped cap_type = record {
  from_status = some "ROUTED";
  to_status = "CAPPED";
  actor = "frequency_cap_service";
  metadata = some (("cap_type", text cap_type) ∷ []);
}

unfoldable pub quiet_hours : String → Transition
quiet_hours scheduled_delivery_time = record {
  from_status = some "ROUTED";
  to_status = "QUIET";
  actor = "quiet_hours_enforcer";
  metadata = some (
      ("scheduled_delivery", text scheduled_delivery_time)
      ∷ ("audit", text "quiet_hours_bypass_not_applicable")
      ∷ []);
}

unfoldable pub dnd_blocked : String → String → Transition
dnd_blocked dnd_check_timestamp classification = record {
  from_status = some "ROUTED";
  to_status = "DND_BLOCKED";
  actor = "dnd_service";
  metadata = some (
      ("dnd_check_timestamp", text dnd_check_timestamp)
      ∷ ("classification", text classification)
      ∷ ("audit", text "trai_dnd_compliance")
      ∷ []);
}

unfoldable pub read : Transition
read = record {
  from_status = some "DELIVERED";
  to_status = "READ";
  actor = "user_action";
  metadata = none;
}
