-- ===== src/Core/Taxonomy.antt =====
-- app/core/event_taxonomy.py: the coded events. The functions read the registry, a global of the
-- module, which is an argument here.
use financial_notification_p.Prelude.{
  String, ℕ, ◌≡◌, Bool, true, false, ◌&&◌, ◌||◌, not, Option, none, some, List, [], ◌∷◌, ◌++◌,
  str_eq, or_else, if◌then◌else◌,
}
use financial_notification_p.Core.Exceptions.{Result, ok, err, attribute_error}
pub mod Table
pub mod Critical

pub data EventPriority : Type 0 where
  critical : EventPriority
  high : EventPriority
  medium : EventPriority
  low : EventPriority

abbrev pub event_priority_value : EventPriority → ℕ
event_priority_value critical = 1
event_priority_value high = 2
event_priority_value medium = 3
event_priority_value low = 5

pub data TaxonomyChannel : Type 0 where
  sms : TaxonomyChannel
  email : TaxonomyChannel
  push : TaxonomyChannel
  whatsapp : TaxonomyChannel
  in_app : TaxonomyChannel
  call : TaxonomyChannel

abbrev pub taxonomy_channel_value : TaxonomyChannel → String
taxonomy_channel_value sms = "sms"
taxonomy_channel_value email = "email"
taxonomy_channel_value push = "push"
taxonomy_channel_value whatsapp = "whatsapp"
taxonomy_channel_value in_app = "in_app"
taxonomy_channel_value call = "call"

pub data RegulatoryClass : Type 0 where
  sebi_mandatory : RegulatoryClass
  amfi_required : RegulatoryClass
  banking_reg : RegulatoryClass
  it_act_required : RegulatoryClass
  exchange_mandate : RegulatoryClass
  best_practice : RegulatoryClass
  advisory : RegulatoryClass
  informational : RegulatoryClass
  engagement : RegulatoryClass

pub data MessageClassification : Type 0 where
  transactional : MessageClassification
  promotional : MessageClassification

-- The attribute of the class that has the name.
abbrev pub classification_named : String → Result MessageClassification
classification_named s =
    if str_eq s "TRANSACTIONAL"
    then ok transactional
    else if str_eq s "PROMOTIONAL"
    then ok promotional
    else err attribute_error

abbrev pub is_transactional : MessageClassification → Bool
is_transactional transactional = true
is_transactional promotional = false

pub record EventDefinition : Type 0 where
  pub code : String
  pub name : String
  pub priority : EventPriority
  pub regulatory : RegulatoryClass
  pub channels : List TaxonomyChannel
  pub max_latency_seconds : Option ℕ
  pub classification : MessageClassification
  pub personalisation_fields : List String
  pub bypass_quiet_hours : Bool
  pub bypass_dnd : Bool
  pub bypass_frequency_cap : Bool

-- `EVENT_REGISTRY.get(code)`: of two events with one code, the dictionary keeps the later
unfoldable pub get_event : List EventDefinition → String → Option EventDefinition
get_event [] code = none
get_event (e ∷ es) code = or_else (get_event es code) (if str_eq e.code code then some e else none)

abbrev pub get_priority_for_event : List EventDefinition → String → EventPriority
get_priority_for_event registry code = elim (get_event registry code) [
  | none ↦ medium
  | some e ↦ e.priority
]

abbrev pub is_dnd_exempt : List EventDefinition → String → Bool
is_dnd_exempt registry code = elim (get_event registry code) [
  | none ↦ false
  | some e ↦ e.bypass_dnd || is_transactional e.classification
]

abbrev pub is_quiet_hours_exempt : List EventDefinition → String → Bool
is_quiet_hours_exempt registry code = elim (get_event registry code) [
  | none ↦ false
  | some e ↦ e.bypass_quiet_hours
]

abbrev pub is_frequency_cap_exempt : List EventDefinition → String → Bool
is_frequency_cap_exempt registry code = elim (get_event registry code) [
  | none ↦ false
  | some e ↦ e.bypass_frequency_cap
]

abbrev pub is_mandated : RegulatoryClass → Bool
is_mandated RegulatoryClass.sebi_mandatory = true
is_mandated RegulatoryClass.amfi_required = true
is_mandated RegulatoryClass.banking_reg = true
is_mandated RegulatoryClass.exchange_mandate = true
is_mandated _ = false

abbrev pub get_mandatory_channels : List EventDefinition → String → List TaxonomyChannel
get_mandatory_channels registry code = elim (get_event registry code) [
  | none ↦ []
  | some e ↦ if is_mandated e.regulatory then e.channels else []
]

abbrev pub is_promotional : List EventDefinition → String → Bool
is_promotional registry code = elim (get_event registry code) [
  | none ↦ false
  | some e ↦ not (is_transactional e.classification)
]
