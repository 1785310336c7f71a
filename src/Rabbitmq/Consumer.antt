-- ===== src/Rabbitmq/Consumer.antt =====
-- app/rabbitmq/consumer.py: `process_delivery_message`, on a message that can be decoded.
use financial_notification_p.Prelude.{none, some}
use financial_notification_p.Core.Exceptions.{ok}
use financial_notification_p.Models.World.{Action, send_notification_task, apply_async}
use financial_notification_p.Redis.Server.{Redis}
use financial_notification_p.Rabbitmq.Publisher.{Message}
use financial_notification_p.Services.External.{External}
pub mod Undelivered

-- The task of a text that is no UUID ends with a `ValueError` before it does anything, so it is left out.
unfoldable pub process_delivery_message : {r : Redis} → External → Message → Action r (Unit {0})
process_delivery_message x m w = elim (x.parse_uuid m.notification_id) [
  | none ↦ (ok tt, w)
  | some id ↦ apply_async (send_notification_task id) w
]
