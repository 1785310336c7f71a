-- ===== src/Services/StateLog.antt =====
-- app/services/state_log_service.py. An entry's instant is the clock's.
use financial_notification_p.Services.Transitions.{
  Transition, created, enriched, routed, queued, sent, delivered, failed, retrying, dead, capped,
  quiet_hours, dnd_blocked, read,
}
use financial_notification_p.Prelude.{
  ℕ, String, Bool, Option, none, some, List, [], ◌∷◌, ◌++◌, map, keep, ltb, leb, ◌==◌, get_or,
  if◌then◌else◌,
}
use Prim.Native.String.{◌++◌ as append}
use financial_notification_p.Core.Exceptions.{Result, ok}
use financial_notification_p.Models.Rows.{
  JsonValue, text, texts, number, null, Metadata, NotificationStateLog,
}
use financial_notification_p.Models.World.{World, Action, ◌>>=◌, ◌>>◌, pure}
use financial_notification_p.Redis.Server.{Redis}
pub mod History

-- The order by `created_at`; entries of one instant stay in the order of the table.
unfoldable pub insert_by_time :
    NotificationStateLog → List NotificationStateLog → List NotificationStateLog
insert_by_time e [] = e ∷ []
insert_by_time e (f ∷ es) =
    if leb e.created_at f.created_at then e ∷ f ∷ es else f ∷ insert_by_time e es

unfoldable pub order_by_time : List NotificationStateLog → List NotificationStateLog
unfolding insert_by_time
order_by_time [] = []
order_by_time (e ∷ es) = insert_by_time e (order_by_time es)

abbrev pub is_for : ℕ → NotificationStateLog → Bool
is_for id e = e.notification_id == id

-- the rows that `get_history` and the audit trail list
unfoldable pub history_of : ℕ → List NotificationStateLog → List NotificationStateLog
unfolding order_by_time
history_of id es = order_by_time (keep (is_for id) es)

abbrev pub entry : ℕ → ℕ → Transition → NotificationStateLog
entry now id t = record {
  notification_id = id;
  from_status = t.from_status;
  to_status = t.to_status;
  actor = t.actor;
  metadata = t.metadata;
  created_at = now;
}

module _ {r : Redis} where
  unfoldable pub record_transition : ℕ → Transition → Action r NotificationStateLog
  record_transition id t w =
      let e = entry w.clock id t in
      let db = w.db in (ok e, record w { db = record db { state_logs = db.state_logs ++ e ∷ [] } })

  unfoldable pub get_history : ℕ → Action r (List NotificationStateLog)
  get_history id w = (ok (history_of id w.db.state_logs), w)

  unfoldable pub record_created : ℕ → Action r (Unit {0})
  unfolding record_transition
  record_created id = record_transition id created >> pure tt

  unfoldable pub record_enriched : ℕ → List String → Action r (Unit {0})
  unfolding record_transition
  record_enriched id channels = record_transition id (enriched channels) >> pure tt

  unfoldable pub record_routed : ℕ → String → String → Action r (Unit {0})
  unfolding record_transition
  record_routed id channel routing_key =
      record_transition id (routed channel routing_key) >> pure tt

  unfoldable pub record_queued : ℕ → String → Action r (Unit {0})
  unfolding record_transition
  record_queued id queue = record_transition id (queued queue) >> pure tt

  unfoldable pub record_sent : ℕ → String → Option String → Action r (Unit {0})
  unfolding record_transition
  record_sent id provider external_id = record_transition id (sent provider external_id) >> pure tt

  unfoldable pub record_delivered : ℕ → String → Option ℕ → Action r (Unit {0})
  unfolding record_transition
  record_delivered id provider latency_ms =
      record_transition id (delivered provider latency_ms) >> pure tt

  unfoldable pub record_failed : ℕ → String → Option String → Action r (Unit {0})
  unfolding record_transition
  record_failed id reason error_code = record_transition id (failed reason error_code) >> pure tt

  unfoldable pub record_retrying : ℕ → ℕ → ℕ → Action r (Unit {0})
  unfolding record_transition
  record_retrying id attempt next_retry_seconds =
      record_transition id (retrying attempt next_retry_seconds) >> pure tt

  unfoldable pub record_dead : ℕ → ℕ → Action r (Unit {0})
  unfolding record_transition
  record_dead id total_attempts = record_transition id (dead total_attempts) >> pure tt

  unfoldable pub record_capped : ℕ → String → Action r (Unit {0})
  unfolding record_transition
  record_capped id cap_type = record_transition id (capped cap_type) >> pure tt

  unfoldable pub record_quiet_hours : ℕ → String → Action r (Unit {0})
  unfolding record_transition
  record_quiet_hours id scheduled_delivery_time =
      record_transition id (quiet_hours scheduled_delivery_time) >> pure tt

  unfoldable pub record_dnd_blocked : ℕ → String → String → Action r (Unit {0})
  unfolding record_transition
  record_dnd_blocked id dnd_check_timestamp classification =
      record_transition id (dnd_blocked dnd_check_timestamp classification) >> pure tt

  unfoldable pub record_read : ℕ → Action r (Unit {0})
  unfolding record_transition
  record_read id = record_transition id read >> pure tt
