-- ===== src/Core/Taxonomy/Table/Regulatory.antt =====
-- app/core/event_taxonomy.py: the events of regulation. The last names MessageClassification.INFORMATIONAL, whose
-- value is the argument.
use financial_notification_p.Prelude.{true, false, none, some, List, [], ◌∷◌}
use financial_notification_p.Core.Taxonomy.{
  RegulatoryClass, EventDefinition, high, medium, low, sms, push, email, in_app, transactional,
  MessageClassification,
}

abbrev pub regulatory_events : MessageClassification → List EventDefinition
regulatory_events classification =
    record {
      code = "REGX-001";
      name = "KYC Expiry Warning";
      priority = high;
      regulatory = RegulatoryClass.sebi_mandatory;
      channels = sms ∷ email ∷ push ∷ [];
      max_latency_seconds = none;
      classification = transactional;
      personalisation_fields = "expiry_date" ∷ "documents_needed" ∷ "submission_link" ∷ [];
      bypass_quiet_hours = false;
      bypass_dnd = true;
      bypass_frequency_cap = false;
    }
    ∷ record {
      code = "REGX-002";
      name = "Nominee Update Reminder";
      priority = medium;
      regulatory = RegulatoryClass.advisory;
      channels = email ∷ push ∷ [];
      max_latency_seconds = none;
      classification = transactional;
      personalisation_fields = "current_nominee_status" ∷ "deadline" ∷ "update_link" ∷ [];
      bypass_quiet_hours = false;
      bypass_dnd = false;
      bypass_frequency_cap = false;
    }
    ∷ record {
      code = "REGX-003";
      name = "Contract Note Generated";
      priority = high;
      regulatory = RegulatoryClass.sebi_mandatory;
      channels = email ∷ [];
      max_latency_seconds = none;
      classification = transactional;
      personalisation_fields = "trade_date" ∷ "pdf_attachment" ∷ "summary" ∷ [];
      bypass_quiet_hours = false;
      bypass_dnd = false;
      bypass_frequency_cap = false;
    }
    ∷ record {
      code = "REGX-004";
      name = "Tax Statement Available";
      priority = medium;
      regulatory = RegulatoryClass.it_act_required;
      channels = email ∷ in_app ∷ [];
      max_latency_seconds = none;
      classification = transactional;
      personalisation_fields = "period" ∷ "download_link" ∷ "key_figures" ∷ [];
      bypass_quiet_hours = false;
      bypass_dnd = false;
      bypass_frequency_cap = false;
    }
    ∷ record {
      code = "REGX-005";
      name = "Regulatory Policy Change";
      priority = low;
      regulatory = RegulatoryClass.informational;
      channels = email ∷ [];
      max_latency_seconds = some 86400;
      classification = classification;
      personalisation_fields = "change_summary" ∷ "impact_on_user" ∷ "effective_date" ∷ [];
      bypass_quiet_hours = false;
      bypass_dnd = false;
      bypass_frequency_cap = false;
    }
    ∷ []
