-- ===== src/Api/Admin/Broadcast.antt =====
-- Whom a broadcast reaches.
use financial_notification_p.Prelude.{String, List, map}
use financial_notification_p.Models.Rows.{User}
use financial_notification_p.Services.Auth.{CurrentUser}
use financial_notification_p.Services.External.{External}
use financial_notification_p.Kafka.Handlers.{Payload}
use financial_notification_p.Kafka.Producer.{KafkaBroker}
use financial_notification_p.Api.Admin.{active, broadcast_payload}

module _ (x : External) (b : KafkaBroker) (u : CurrentUser) (event_type message : String) where
  abbrev pub payloads : List User → List Payload
  payloads us = map (λ (v : User). broadcast_payload x event_type message v.id) (active us)
