-- ===== src/Core/Taxonomy/Table/Trading.antt =====
-- app/core/event_taxonomy.py: the events of transactions and of risk.
use financial_notification_p.Prelude.{true, false, some, List, [], ◌∷◌}
use financial_notification_p.Core.Taxonomy.{
  RegulatoryClass, EventDefinition, critical, high, medium, sms, push, email, in_app, call,
  transactional,
}

abbrev pub transaction_events : List EventDefinition
transaction_events =
    record {
      code = "TXNX-001";
      name = "Buy Order Executed";
      priority = high;
      regulatory = RegulatoryClass.sebi_mandatory;
      channels = sms ∷ push ∷ email ∷ [];
      max_latency_seconds = some 30;
      classification = transactional;
      personalisation_fields =
          "stock_name" ∷ "qty" ∷ "price" ∷ "total" ∷ "portfolio_value" ∷ "order_id" ∷ [];
      bypass_quiet_hours = false;
      bypass_dnd = false;
      bypass_frequency_cap = false;
    }
    ∷ record {
      code = "TXNX-002";
      name = "Sell Order Executed";
      priority = high;
      regulatory = RegulatoryClass.sebi_mandatory;
      channels = sms ∷ push ∷ email ∷ [];
      max_latency_seconds = some 30;
      classification = transactional;
      personalisation_fields =
          "stock_name" ∷ "qty" ∷ "price" ∷ "pnl" ∷ "tax_implication" ∷ "order_id" ∷ [];
      bypass_quiet_hours = false;
      bypass_dnd = false;
      bypass_frequency_cap = false;
    }
    ∷ record {
      code = "TXNX-003";
      name = "Order Rejected";
      priority = high;
      regulatory = RegulatoryClass.advisory;
      channels = push ∷ sms ∷ [];
      max_latency_seconds = some 15;
      classification = transactional;
      personalisation_fields =
          "reason_code" ∷ "alternative_action" ∷ "support_link" ∷ "order_id" ∷ [];
      bypass_quiet_hours = false;
      bypass_dnd = false;
      bypass_frequency_cap = false;
    }
    ∷ record {
      code = "TXNX-004";
      name = "Dividend Credited";
      priority = medium;
      regulatory = RegulatoryClass.informational;
      channels = email ∷ push ∷ [];
      max_latency_seconds = some 3600;
      classification = transactional;
      personalisation_fields = "company" ∷ "amount" ∷ "record_date" ∷ "bank_account" ∷ [];
      bypass_quiet_hours = false;
      bypass_dnd = false;
      bypass_frequency_cap = false;
    }
    ∷ record {
      code = "TXNX-005";
      name = "Funds Deposited";
      priority = high;
      regulatory = RegulatoryClass.banking_reg;
      channels = sms ∷ push ∷ [];
      max_latency_seconds = some 60;
      classification = transactional;
      personalisation_fields = "amount" ∷ "source" ∷ "available_balance" ∷ [];
      bypass_quiet_hours = false;
      bypass_dnd = false;
      bypass_frequency_cap = false;
    }
    ∷ []

abbrev pub risk_events : List EventDefinition
risk_events =
    record {
      code = "RISK-001";
      name = "Margin Call Warning";
      priority = critical;
      regulatory = RegulatoryClass.sebi_mandatory;
      channels = sms ∷ push ∷ call ∷ [];
      max_latency_seconds = some 10;
      classification = transactional;
      personalisation_fields =
          "shortfall_amount" ∷ "deadline" ∷ "liquidation_risk" ∷ "affected_positions" ∷ [];
      bypass_quiet_hours = true;
      bypass_dnd = true;
      bypass_frequency_cap = true;
    }
    ∷ record {
      code = "RISK-002";
      name = "Margin Shortfall";
      priority = critical;
      regulatory = RegulatoryClass.sebi_mandatory;
      channels = sms ∷ push ∷ email ∷ call ∷ [];
      max_latency_seconds = some 5;
      classification = transactional;
      personalisation_fields = "shortfall_amount" ∷ "action_required" ∷ "auto_square_off_time" ∷ [];
      bypass_quiet_hours = true;
      bypass_dnd = true;
      bypass_frequency_cap = true;
    }
    ∷ record {
      code = "RISK-003";
      name = "Position Squared Off";
      priority = critical;
      regulatory = RegulatoryClass.sebi_mandatory;
      channels = sms ∷ push ∷ email ∷ [];
      max_latency_seconds = some 15;
      classification = transactional;
      personalisation_fields = "positions_closed" ∷ "pnl_impact" ∷ "remaining_positions" ∷ [];
      bypass_quiet_hours = true;
      bypass_dnd = true;
      bypass_frequency_cap = true;
    }
    ∷ record {
      code = "RISK-004";
      name = "Portfolio Risk Alert";
      priority = high;
      regulatory = RegulatoryClass.advisory;
      channels = push ∷ email ∷ [];
      max_latency_seconds = some 300;
      classification = transactional;
      personalisation_fields = "risk_metric" ∷ "affected_holdings" ∷ "suggestion" ∷ [];
      bypass_quiet_hours = false;
      bypass_dnd = false;
      bypass_frequency_cap = false;
    }
    ∷ record {
      code = "RISK-005";
      name = "Concentration Alert";
      priority = medium;
      regulatory = RegulatoryClass.advisory;
      channels = email ∷ in_app ∷ [];
      max_latency_seconds = some 3600;
      classification = transactional;
      personalisation_fields = "sector_stock" ∷ "allocation_percent" ∷ [];
      bypass_quiet_hours = false;
      bypass_dnd = false;
      bypass_frequency_cap = false;
    }
    ∷ []
