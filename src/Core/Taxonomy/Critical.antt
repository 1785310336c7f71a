-- ===== src/Core/Taxonomy/Critical.antt =====
-- The exemptions of the coded events.
use financial_notification_p.Prelude.{
  inl, inr, arith, String, ◌≡◌, refl, Bool, true, false, Option, none, some, List, [], ◌∷◌, ◌++◌,
  All, str_eq, Bool-cases, or_else, if◌then◌else◌, subst, ◌||◌, not,
}
use financial_notification_p.Core.Exceptions.{Result, ok, err, attribute_error}
use financial_notification_p.Core.Taxonomy.{
  MessageClassification, classification_named, EventPriority, critical, medium, EventDefinition,
  get_event, get_priority_for_event, is_frequency_cap_exempt, is_quiet_hours_exempt, is_dnd_exempt,
  is_transactional,
}
use financial_notification_p.Core.Taxonomy.Table.{
  transaction_events, risk_events, sip_events, market_events, regulatory_events,
}

-- `ALL_EVENTS`, given the value of MessageClassification.INFORMATIONAL
abbrev pub all_events : MessageClassification → List EventDefinition
all_events informational =
    transaction_events
    ++ (risk_events ++ (sip_events ++ (market_events ++ regulatory_events informational)))

-- What the import makes of the name: the class has no such member.
abbrev pub imported_events : Result (List EventDefinition)
imported_events = elim (classification_named "INFORMATIONAL") [
  | err e ↦ err e
  | ok informational ↦ ok (all_events informational)
]

import_raises : imported_events ≡ err attribute_error
import_raises = refl

abbrev pub is_critical : EventPriority → Bool
is_critical critical = true
is_critical _ = false

some_inj : {d e : EventDefinition} → some d ≡ some e → d ≡ e
some_inj q = cc

-- What every event of a registry has, the event that a code names has.
pub get_event-All :
    (P : EventDefinition → Type 0) (registry : List EventDefinition)
    → All P registry
    → (code : String) (e : EventDefinition) → get_event registry code ≡ some e
    → P e
unfolding get_event
get_event-All P [] all code e found = absurd (cc found)
get_event-All P (d ∷ ds) all code e found =
    go (get_event ds code) (λ q. get_event-All P ds all.1 code e q) found
  where
    go :
        (o : Option EventDefinition)
        → (o ≡ some e → P e)
        → or_else o (if str_eq d.code code then some d else none) ≡ some e
        → P e
    go (some f) later q = later q
    go none later q = elim (Bool-cases (str_eq d.code code)) [
      | inl same ↦ let d_is_e : d ≡ e = some_inj (rw same at q) in subst P d_is_e all.0
      | inr other ↦ absurd (cc (rw other at q))
    ]

abbrev pub Exempts : EventDefinition → Type 0
Exempts e =
    (e.bypass_quiet_hours ≡ is_critical e.priority)
    × (e.bypass_frequency_cap ≡ is_critical e.priority)
    × ((is_critical e.priority ≡ true) → e.bypass_dnd ≡ true)

exempts_alike : (b : Bool) → (b ≡ b) × (b ≡ b) × (b ≡ true → b ≡ true)
exempts_alike b = (refl, refl, λ q. q)

all_events-Exempts :
    (informational : MessageClassification) → All Exempts (all_events informational)
all_events-Exempts informational =
    let n = exempts_alike false in
    let c = exempts_alike true in
    let dnd_only : (false ≡ false) × (false ≡ false) × (false ≡ true → true ≡ true) =
      (refl, refl, λ q. refl) in
    (
      n,
      (
        n,
        (
          n,
          (
            n,
            (
              n,
              (
                c,
                (
                  c,
                  (
                    c,
                    (
                      n,
                      (
                        n,
                        (
                          n,
                          (
                            n,
                            (
                              n,
                              (n, (n, (n, (c, (n, (n, (n, (dnd_only, (n, (n, (n, (n, tt)))))))))))),
                            ),
                          ),
                        ),
                      ),
                    ),
                  ),
                ),
              ),
            ),
          ),
        ),
      ),
    )

-- Of all the coded events, whatever value is given to the classification that the class lacks, and
-- whatever the code asked for: the critical ones, and no others, are exempt from quiet hours and from the
-- caps, and every critical one is exempt from the registry of do-not-disturb numbers.
pub exempt_iff_critical :
    (informational : MessageClassification) (code : String)
    → (let registry = all_events informational in
        let critical_code = is_critical (get_priority_for_event registry code) in
        (is_quiet_hours_exempt registry code ≡ critical_code)
        × (is_frequency_cap_exempt registry code ≡ critical_code)
        × ((not critical_code || is_dnd_exempt registry code) ≡ true))
exempt_iff_critical informational code = go (get_event (all_events informational) code) refl
  where
    go :
        (o : Option EventDefinition)
        → get_event (all_events informational) code ≡ o
        → ((elim o [ none ↦ false | some e ↦ e.bypass_quiet_hours ])
            ≡ is_critical (elim o [ none ↦ medium | some e ↦ e.priority ]))
          × ((elim o [ none ↦ false | some e ↦ e.bypass_frequency_cap ])
              ≡ is_critical (elim o [ none ↦ medium | some e ↦ e.priority ]))
          × ((not (is_critical (elim o [ none ↦ medium | some e ↦ e.priority ])) || (elim o [
            | none ↦ false
            | some e ↦ e.bypass_dnd || is_transactional e.classification
          ]))
              ≡ true)
    go none found = (refl, refl, refl)
    go (some e) found =
        let (quiet, caps, dnd) =
          get_event-All Exempts (all_events informational) (all_events-Exempts informational) code e
            found in
        (quiet, caps, ground (arith, dnd))
