-- ===== src/Core/Taxonomy/Table/Investing.antt =====
-- app/core/event_taxonomy.py: the events of investment plans and of the market.
use financial_notification_p.Prelude.{true, false, none, some, List, [], ◌∷◌}
use financial_notification_p.Core.Taxonomy.{
  RegulatoryClass, EventDefinition, critical, high, medium, low, sms, push, email, whatsapp, in_app,
  transactional, promotional,
}

abbrev pub sip_events : List EventDefinition
sip_events =
    record {
      code = "SIPX-001";
      name = "SIP Due Reminder";
      priority = medium;
      regulatory = RegulatoryClass.best_practice;
      channels = push ∷ whatsapp ∷ [];
      max_latency_seconds = none;
      classification = transactional;
      personalisation_fields = "fund_name" ∷ "amount" ∷ "due_date" ∷ "bank_balance_check" ∷ [];
      bypass_quiet_hours = false;
      bypass_dnd = false;
      bypass_frequency_cap = false;
    }
    ∷ record {
      code = "SIPX-002";
      name = "SIP Executed";
      priority = high;
      regulatory = RegulatoryClass.amfi_required;
      channels = sms ∷ email ∷ [];
      max_latency_seconds = some 7200;
      classification = transactional;
      personalisation_fields = "fund_name" ∷ "units_allotted" ∷ "nav" ∷ "total_investment" ∷ [];
      bypass_quiet_hours = false;
      bypass_dnd = false;
      bypass_frequency_cap = false;
    }
    ∷ record {
      code = "SIPX-003";
      name = "SIP Failed";
      priority = high;
      regulatory = RegulatoryClass.advisory;
      channels = sms ∷ push ∷ email ∷ [];
      max_latency_seconds = some 1800;
      classification = transactional;
      personalisation_fields = "reason" ∷ "retry_date" ∷ "action_required" ∷ [];
      bypass_quiet_hours = false;
      bypass_dnd = false;
      bypass_frequency_cap = false;
    }
    ∷ record {
      code = "SIPX-004";
      name = "SIP Step-Up Reminder";
      priority = low;
      regulatory = RegulatoryClass.advisory;
      channels = email ∷ in_app ∷ [];
      max_latency_seconds = none;
      classification = promotional;
      personalisation_fields = "current_amount" ∷ "suggested_increase" ∷ "goal_impact" ∷ [];
      bypass_quiet_hours = false;
      bypass_dnd = false;
      bypass_frequency_cap = false;
    }
    ∷ record {
      code = "SIPX-005";
      name = "Goal Milestone Reached";
      priority = low;
      regulatory = RegulatoryClass.engagement;
      channels = push ∷ in_app ∷ [];
      max_latency_seconds = some 14400;
      classification = promotional;
      personalisation_fields = "goal_name" ∷ "percent_complete" ∷ "projected_completion" ∷ [];
      bypass_quiet_hours = false;
      bypass_dnd = false;
      bypass_frequency_cap = false;
    }
    ∷ []

abbrev pub market_events : List EventDefinition
market_events =
    record {
      code = "MKTX-001";
      name = "Price Alert Triggered";
      priority = high;
      regulatory = RegulatoryClass.advisory;
      channels = push ∷ sms ∷ [];
      max_latency_seconds = some 15;
      classification = transactional;
      personalisation_fields = "stock" ∷ "target_price" ∷ "current_price" ∷ "direction" ∷ [];
      bypass_quiet_hours = false;
      bypass_dnd = false;
      bypass_frequency_cap = false;
    }
    ∷ record {
      code = "MKTX-002";
      name = "Circuit Breaker Hit";
      priority = critical;
      regulatory = RegulatoryClass.exchange_mandate;
      channels = push ∷ sms ∷ [];
      max_latency_seconds = some 10;
      classification = transactional;
      personalisation_fields = "stock" ∷ "circuit_level" ∷ "trading_halt_duration" ∷ [];
      bypass_quiet_hours = true;
      bypass_dnd = true;
      bypass_frequency_cap = true;
    }
    ∷ record {
      code = "MKTX-003";
      name = "Market Open/Close";
      priority = low;
      regulatory = RegulatoryClass.engagement;
      channels = push ∷ [];
      max_latency_seconds = none;
      classification = promotional;
      personalisation_fields = "index_levels" ∷ "portfolio_overnight_change" ∷ [];
      bypass_quiet_hours = false;
      bypass_dnd = false;
      bypass_frequency_cap = false;
    }
    ∷ record {
      code = "MKTX-004";
      name = "52-Week High/Low";
      priority = medium;
      regulatory = RegulatoryClass.advisory;
      channels = push ∷ email ∷ [];
      max_latency_seconds = some 1800;
      classification = transactional;
      personalisation_fields = "stock" ∷ "new_milestone" ∷ "holding_status" ∷ [];
      bypass_quiet_hours = false;
      bypass_dnd = false;
      bypass_frequency_cap = false;
    }
    ∷ record {
      code = "MKTX-005";
      name = "Earnings Announcement";
      priority = medium;
      regulatory = RegulatoryClass.advisory;
      channels = email ∷ in_app ∷ [];
      max_latency_seconds = none;
      classification = promotional;
      personalisation_fields = "company" ∷ "date" ∷ "expected_eps" ∷ "historical_eps" ∷ [];
      bypass_quiet_hours = false;
      bypass_dnd = false;
      bypass_frequency_cap = false;
    }
    ∷ []
