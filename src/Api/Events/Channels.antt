-- ===== src/Api/Events/Channels.antt =====
-- The channels of an ingested event, and the time it is expected to take.
use financial_notification_p.Prelude.{
  ℕ, ◌≡◌, ◌≤◌, ◌/◌, refl, sym, ◌∙◌, ap, subst, ◌⊎◌, String, Bool, true, false, ◌||◌, Option, none,
  some, List, [], ◌∷◌, ◌++◌, All, map, mem_text, min, arith, ◌==◌, if◌then◌else◌, inl, inr, any,
}
use financial_notification_p.Core.Taxonomy.{
  EventDefinition, taxonomy_channel_value, get_event, is_mandated, get_mandatory_channels,
}
use financial_notification_p.Api.Events.{
  SetList, KeepsMembers, default_targets, resolve_channels, latency, fastest, estimate_delivery_ms,
}

mem_text-append :
    (s : String) (xs ys : List String) → mem_text s (xs ++ ys) ≡ (mem_text s xs || mem_text s ys)
mem_text-append s [] ys = refl
mem_text-append s (x ∷ xs) ys = ground (arith, mem_text-append s xs ys)

module _ (registry : List EventDefinition) (set_list : SetList)
    (keeps : KeepsMembers set_list) where
  -- For a listing of a set that has its members: where channels are requested, the event goes to
  -- those, to the ones that regulation mandates for its code, and to no other.
  resolve_channels-requested :
      (event_type c : String) (cs : List String) (s : String)
      → mem_text s (resolve_channels registry set_list event_type (some (c ∷ cs))) ≡ (
          mem_text s (c ∷ cs)
          || mem_text s (map taxonomy_channel_value (get_mandatory_channels registry event_type)))
  unfolding resolve_channels
  resolve_channels-requested event_type c cs s =
      keeps s (c ∷ cs ++ map taxonomy_channel_value (get_mandatory_channels registry event_type))
      ∙ mem_text-append s (c ∷ cs)
          (map taxonomy_channel_value (get_mandatory_channels registry event_type))

  default_targets-mandatory :
      (event_type s : String)
      → mem_text s (map taxonomy_channel_value (get_mandatory_channels registry event_type)) ≡ true
      → mem_text s (default_targets registry event_type) ≡ true
  default_targets-mandatory event_type s = go (get_event registry event_type)
    where
      go :
          (o : Option EventDefinition)
          → mem_text s (
              map taxonomy_channel_value (elim o [
                | none ↦ []
                | some e ↦ if is_mandated e.regulatory then e.channels else []
              ]))
            ≡ true
          → mem_text s (elim o [
            | none ↦ "push" ∷ "in_app" ∷ []
            | some e ↦ map taxonomy_channel_value e.channels
          ])
            ≡ true
      go none h = cc h
      go (some e) h = mandated (is_mandated e.regulatory) h
        where
          mandated :
              (b : Bool)
              → mem_text s (map taxonomy_channel_value (if b then e.channels else [])) ≡ true
              → mem_text s (map taxonomy_channel_value e.channels) ≡ true
          mandated true h = h
          mandated false h = cc h

  -- For a listing of a set that has its members: a channel that regulation mandates for the
  -- event's code is among the event's channels, whatever the request says of channels.
  pub resolve_channels-mandatory :
      (event_type : String) (requested : Option (List String)) (s : String)
      → mem_text s (map taxonomy_channel_value (get_mandatory_channels registry event_type)) ≡ true
      → mem_text s (resolve_channels registry set_list event_type requested) ≡ true
  unfolding resolve_channels
  resolve_channels-mandatory event_type none s h = default_targets-mandatory event_type s h
  resolve_channels-mandatory event_type (some []) s h = default_targets-mandatory event_type s h
  resolve_channels-mandatory event_type (some (c ∷ cs)) s h =
      ground (arith, resolve_channels-requested event_type c cs s)

at_most-All :
    (a b : ℕ) (cs : List String) → a ≤ b → All (λ d. b ≤ latency d) cs → All (λ d. a ≤ latency d) cs
at_most-All a b [] ab h = tt
at_most-All a b (c ∷ cs) ab h = (omega (arith, ab, h.0), at_most-All a b cs ab h.1)

min_cases : (a b : ℕ) → (min a b ≡ a) ⊎ (min a b ≡ b)
min_cases a b = ground arith

fastest-least : (c : String) (cs : List String) → All (λ d. fastest c cs ≤ latency d) (c ∷ cs)
fastest-least c [] = (omega arith, tt)
fastest-least c (d ∷ ds) = (
  ground arith,
  at_most-All (min (latency c) (fastest d ds)) (fastest d ds) (d ∷ ds) (ground arith)
      (fastest-least d ds),
)

fastest-attained :
    (c : String) (cs : List String) → any (λ d. latency d == fastest c cs) (c ∷ cs) ≡ true
fastest-attained c [] = ground arith
fastest-attained c (d ∷ ds) = elim (min_cases (latency c) (fastest d ds)) [
  | inl first ↦
      subst (λ m. any (λ e. latency e == m) (c ∷ d ∷ ds) ≡ true) (sym first) (ground arith)
  | inr later ↦
      subst (λ m. any (λ e. latency e == m) (c ∷ d ∷ ds) ≡ true) (sym later)
        (ground (arith, fastest-attained d ds))
]

-- For channels of which there is at least one, and a priority other than 1: no channel is faster than
-- the estimate, one of the channels has the estimate as its time, and the estimate at priority 1 is half
-- of it, rounded down.
estimate_delivery_ms-fastest :
    (c : String) (cs : List String) (priority : ℕ)
    → (priority == 1) ≡ false
    → All (λ d. estimate_delivery_ms (c ∷ cs) priority ≤ latency d) (c ∷ cs)
      × (any (λ d. latency d == estimate_delivery_ms (c ∷ cs) priority) (c ∷ cs) ≡ true)
      × (estimate_delivery_ms (c ∷ cs) 1 ≡ estimate_delivery_ms (c ∷ cs) priority / 2)
unfolding estimate_delivery_ms
estimate_delivery_ms-fastest c cs priority h =
    let e : (if priority == 1 then fastest c cs / 2 else fastest c cs) ≡ fastest c cs = rw h in
    (
      subst (λ m. All (λ d. m ≤ latency d) (c ∷ cs)) (sym e) (fastest-least c cs),
      subst (λ m. any (λ d. latency d == m) (c ∷ cs) ≡ true) (sym e) (fastest-attained c cs),
      ap (λ m. m / 2) (sym e),
    )
