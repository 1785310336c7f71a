-- ===== src/Witnesses/Events.antt =====
-- Events: from the taxonomy over the request to the consumer, and the day's totals.
use financial_notification_p.Prelude.{
  ◌≡◌, ◌⊎◌, refl, String, true, false, none, some, List, [], ◌∷◌, ◌++◌, map, length, mem_text, ◌==◌,
}
use financial_notification_p.Core.Constants.{
  FinancialEventType, NotificationChannel, NotificationStatus, NotificationPriority, event_of_value,
}
use financial_notification_p.Core.Config.{default_settings}
use financial_notification_p.Core.Exceptions.{err, http_exception}
use financial_notification_p.Core.Taxonomy.{
  is_quiet_hours_exempt, is_frequency_cap_exempt, is_dnd_exempt, get_priority_for_event, get_event,
  get_mandatory_channels, taxonomy_channel_value,
}
use financial_notification_p.Prelude.{not, ◌||◌}
use financial_notification_p.Core.Taxonomy.{transactional}
use financial_notification_p.Core.Taxonomy.Table.{risk_events}
use financial_notification_p.Core.Taxonomy.Critical.{all_events, is_critical, exempt_iff_critical}
use financial_notification_p.Redis.Server.Memory.{utc}
use financial_notification_p.Services.EventArguments.{member}
use financial_notification_p.Services.Factory.{build_single}
use financial_notification_p.Services.Factory.Built.{Ends, build_single-Ends}
use financial_notification_p.Services.Dispatcher.Settles.{PendingIn}
use financial_notification_p.Services.Analytics.{CountRow, aggregates}
use financial_notification_p.Services.Analytics.Totals.{counted, column}
use financial_notification_p.Services.Analytics.Columns.{
  is_sent, is_delivered, is_failed, is_skipped, is_retried, is_dead, is_skipped_dnd,
  is_skipped_quiet_hours, is_skipped_frequency_cap, is_skipped_opt_out, aggregates-totals,
}
use financial_notification_p.Kafka.Handlers.{Payload, handle, seen_before}
use financial_notification_p.Kafka.Handlers.Settled.{handle-PendingIn}
use financial_notification_p.Api.Events.{
  EventPayload, Outbox, resolve_channels, ingest_event, event_data, effective_priority,
}
use financial_notification_p.Api.Events.Channels.{resolve_channels-mandatory}
use financial_notification_p.Api.Events.Ingest.{
  is_ok, Published, messages, ingest_event-publishes, event_data_dead_letters,
}
use financial_notification_p.Core.Constants.{UserRole}
use financial_notification_p.Prelude.{All, arith, str_eq, if◌then◌else◌}
use financial_notification_p.Core.Constants.{event_value}
use financial_notification_p.Rabbitmq.Publisher.{Message}
use financial_notification_p.Services.External.{External}
use financial_notification_p.Celery.Tasks.{replied}
use financial_notification_p.Rabbitmq.Consumer.Undelivered.{IsLost, ingest_event-IsLost}
use financial_notification_p.Witnesses.Fixtures.{rejected}
use financial_notification_p.Core.Exceptions.{ok}
use financial_notification_p.Rabbitmq.Publisher.{Broker}
use financial_notification_p.Services.Auth.{CurrentUser, require_roles, managers}
use financial_notification_p.Witnesses.Fixtures.{host, asha, first_row, world_with}

abbrev pub margin_call : EventPayload
margin_call = record {
  event_type = "RISK-001";
  event_id = "e1";
  source_system = "margin_engine";
  timestamp = 0;
  priority = 3;
  user_id = 7;
  payload = [];
  idempotency_key = none;
  channels = some ("email" ∷ []);
}

abbrev pub as_given : List String → List String
as_given cs = cs

not_a_value : event_of_value "RISK-001" ≡ none
unfolding event_of_value
not_a_value = refl

not_seen : seen_before none (first_row ∷ []) ≡ false
unfolding seen_before
not_seen = refl

event_data_dead_letters_example :
    handle host utc default_settings
      (event_data risk_events as_given host "n1" margin_call).event
      (world_with first_row)
    ≡ (true, world_with first_row)
event_data_dead_letters_example =
    event_data_dead_letters risk_events as_given host utc default_settings "n1" margin_call
      (world_with first_row) asha not_a_value refl not_seen refl refl

abbrev coded : Payload
coded = (event_data risk_events as_given host "n1" margin_call).event

handle-PendingIn_example :
    PendingIn
      (λ i. i == 3)
      (handle host utc default_settings coded (world_with first_row)).1.db.notifications
handle-PendingIn_example =
    handle-PendingIn host utc default_settings (λ i. i == 3) coded (world_with first_row)
      (λ e. refl, tt)

build_single-Ends_example :
    Ends host asha FinancialEventType.welcome NotificationChannel.sms
      (member NotificationPriority.medium)
      []
      "en"
      none
      (build_single host asha FinancialEventType.welcome NotificationChannel.sms
        (member NotificationPriority.medium)
        []
        "en"
        none)
      (world_with first_row)
build_single-Ends_example =
    build_single-Ends host asha FinancialEventType.welcome NotificationChannel.sms
      (member NotificationPriority.medium) [] "en" none (world_with first_row)

mandated_sms :
    mem_text "sms" (map taxonomy_channel_value (get_mandatory_channels risk_events "RISK-001"))
    ≡ true
unfolding get_event
mandated_sms = refl

resolve_channels-mandatory_example :
    mem_text "sms" (resolve_channels risk_events as_given "RISK-001" (some ("email" ∷ []))) ≡ true
resolve_channels-mandatory_example =
    resolve_channels-mandatory risk_events as_given (λ s xs. refl) "RISK-001" (some ("email" ∷ []))
      "sms" mandated_sms

abbrev pub nothing_sent : Outbox
nothing_sent = record { kafka = []; rabbit = [] }

abbrev asha_as_manager : CurrentUser
asha_as_manager = record { user_id = 7; role = UserRole.manager }

-- A broker that takes one message and no more.
abbrev takes_one : Broker
takes_one sent m = length sent == 0

ingest_event-publishes_example :
    let reply =
      ingest_event risk_events as_given host true takes_one "n1" asha_as_manager margin_call
        nothing_sent in
    ((require_roles managers asha_as_manager ≡ err (http_exception 403))
      × (reply ≡ (err (http_exception 403), nothing_sent)))
    ⊎ ((require_roles managers asha_as_manager ≡ ok asha_as_manager)
        × (true ≡ false)
        × (reply ≡ (err (http_exception 503), nothing_sent)))
    ⊎ ((require_roles managers asha_as_manager ≡ ok asha_as_manager)
        × (true ≡ true)
        × (is_ok reply.0 ≡ true)
        × (reply.1.kafka ≡ [] ++ event_data risk_events as_given host "n1" margin_call ∷ [])
        × Published takes_one
            (messages takes_one "n1"
              (effective_priority risk_events margin_call)
              []
              (resolve_channels risk_events as_given "RISK-001" (some ("email" ∷ []))))
            []
            reply.1.rabbit)
ingest_event-publishes_example =
    ingest_event-publishes risk_events as_given host true takes_one "n1" asha_as_manager margin_call
      nothing_sent

exempt_iff_critical_example :
    let registry = all_events transactional in
    let critical_code = is_critical (get_priority_for_event registry "RISK-001") in
    (is_quiet_hours_exempt registry "RISK-001" ≡ critical_code)
    × (is_frequency_cap_exempt registry "RISK-001" ≡ critical_code)
    × ((not critical_code || is_dnd_exempt registry "RISK-001") ≡ true)
exempt_iff_critical_example = exempt_iff_critical transactional "RISK-001"

abbrev day : List CountRow
day =
    record {
      event_type = FinancialEventType.welcome;
      channel = NotificationChannel.sms;
      status = NotificationStatus.delivered;
      skip_reason = none;
      count = 4;
    }
    ∷ []

aggregates-totals_example :
    let e = FinancialEventType.welcome in
    let c = NotificationChannel.sms in
    (column (λ a. a.total_sent) e c (aggregates day []) ≡ counted is_sent e c day)
    × (column (λ a. a.total_delivered) e c (aggregates day []) ≡ counted is_delivered e c day)
    × (column (λ a. a.total_failed) e c (aggregates day []) ≡ counted is_failed e c day)
    × (column (λ a. a.total_skipped) e c (aggregates day []) ≡ counted is_skipped e c day)
    × (column (λ a. a.total_retried) e c (aggregates day []) ≡ counted is_retried e c day)
    × (column (λ a. a.total_dead) e c (aggregates day []) ≡ counted is_dead e c day)
    × (column (λ a. a.skip_dnd) e c (aggregates day []) ≡ counted is_skipped_dnd e c day)
    × (column (λ a. a.skip_quiet_hours) e c (aggregates day [])
        ≡ counted is_skipped_quiet_hours e c day)
    × (column (λ a. a.skip_frequency_cap) e c (aggregates day [])
        ≡ counted is_skipped_frequency_cap e c day)
    × (column (λ a. a.skip_user_opt_out) e c (aggregates day [])
        ≡ counted is_skipped_opt_out e c day)
aggregates-totals_example = aggregates-totals day FinancialEventType.welcome NotificationChannel.sms

-- Texts for the identifier 0, which `host` does not draw, and for the user.
abbrev two_texts : External
two_texts = record host {
  uuid_text = λ i. if i == 0 then "u0" else if i == 7 then "u7" else "none";
  parse_uuid = λ s. if str_eq s "u0" then some 0 else if str_eq s "u7" then some 7 else none;
}

abbrev welcome_event : EventPayload
welcome_event = record margin_call { event_type = event_value FinancialEventType.welcome }

ingest_event-IsLost_example :
    let box' =
      (ingest_event risk_events as_given two_texts true takes_one "u0" asha_as_manager welcome_event
        nothing_sent).1 in
    let event = (event_data risk_events as_given two_texts "u0" welcome_event).event in
    let w' = (handle two_texts utc default_settings event (world_with first_row)).1 in
    (ms : List Message) × (box'.rabbit ≡ [] ++ ms)
    × All (IsLost two_texts (λ t n. replied rejected) 0 w') ms
ingest_event-IsLost_example =
    ingest_event-IsLost risk_events as_given two_texts utc default_settings
      (λ t n. replied rejected) true takes_one 0 asha_as_manager welcome_event nothing_sent
      (world_with first_row) refl (λ ids same. omega (arith, same)) refl
