-- ===== src/Models/Preference/OptOut.antt =====
-- The text of opt-outs reads back as the event types that were written into it.
use financial_notification_p.Prelude.{
  ℕ, ◌≡◌, refl, ◌∙◌, ap, Bool, true, false, not, ◌&&◌, some, List, [], ◌∷◌, ◌++◌, map, All, keep,
  arith, ◌==◌,
}
use financial_notification_p.Core.Constants.{FinancialEventType, event_value, transaction_success}
use financial_notification_p.Models.Preference.{
  Text, UserPreference, codes, comma, is_blank, split_commas, lstrip, rstrip, strip, join_commas,
  get_disabled_events, is_empty,
}

abbrev plain : ℕ → Bool
plain c = not (is_blank c) && not (c == comma)

abbrev pub all_plain : Text → Bool
all_plain [] = true
all_plain (c ∷ s) = plain c && all_plain s

-- A text that can stand in the list: not empty, and without blanks and commas.
abbrev pub IsWord : Text → Type 0
IsWord s = (is_empty s ≡ false) × (all_plain s ≡ true)

split_last : (s : Text) → all_plain s ≡ true → split_commas s ≡ s ∷ []
unfolding split_commas
split_last [] h = refl
split_last (c ∷ s) h = ground (arith, split_last s)

split_next :
    (s rest : Text)
    → all_plain s ≡ true
    → split_commas (s ++ (comma ∷ rest)) ≡ s ∷ split_commas rest
unfolding split_commas
split_next [] rest h = refl
split_next (c ∷ s) rest h = ground (arith, split_next s rest)

lstrip_plain : (s : Text) → all_plain s ≡ true → lstrip s ≡ s
unfolding lstrip
lstrip_plain [] h = refl
lstrip_plain (c ∷ s) h = ground arith

rstrip_plain : (s : Text) → all_plain s ≡ true → rstrip s ≡ s
unfolding rstrip
rstrip_plain [] h = refl
rstrip_plain (c ∷ []) h = ground arith
rstrip_plain (c ∷ d ∷ s) h = ground (arith, rstrip_plain (d ∷ s))

strip_plain : (s : Text) → all_plain s ≡ true → strip s ≡ s
unfolding strip
strip_plain s h = ap rstrip (lstrip_plain s h) ∙ rstrip_plain s h

pieces : Text → List Text
pieces s = keep (λ e. not (is_empty e)) (map strip (split_commas s))

pieces_join :
    (s : Text) (ts : List Text) → All IsWord (s ∷ ts) → pieces (join_commas (s ∷ ts)) ≡ s ∷ ts
unfolding pieces join_commas
pieces_join s [] (w, _) = rw (split_last s w.1) (rw (strip_plain s w.1, w.0))
pieces_join s (t ∷ ts) (w, ws) =
    rw (split_next s (join_commas (t ∷ ts)) w.1)
      (rw (strip_plain s w.1, w.0) (ap (λ r. s ∷ r) (pieces_join t ts ws)))

join_nonempty : (s : Text) (ts : List Text) → IsWord s → is_empty (join_commas (s ∷ ts)) ≡ false
unfolding join_commas
join_nonempty [] ts w = cc
join_nonempty (c ∷ s) [] w = refl
join_nonempty (c ∷ s) (t ∷ ts) w = refl

-- Words, which are neither empty nor hold a blank or a comma, that were joined into the preference
-- are read back, all of them and in order.
pub disabled_events-join :
    (ts : List Text) (p : UserPreference)
    → All IsWord ts
    → get_disabled_events (record p { disabled_event_types = some (join_commas ts) }) ≡ ts
unfolding get_disabled_events pieces
disabled_events-join [] p h = unfold join_commas in refl
disabled_events-join (s ∷ ts) p h = rw (join_nonempty s ts h.0) (pieces_join s ts h)

pub event_value-IsWord : (e : FinancialEventType) → IsWord (codes (event_value e))
unfolding is_blank
event_value-IsWord transaction_success = (refl, refl)
event_value-IsWord _ = (refl, refl)
