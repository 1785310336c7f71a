-- ===== src/Redis/SpecCap/Calls.antt =====
-- Sequences of calls of `check_and_increment`.
use financial_notification_p.Prelude.{
  ℕ, ◌≤◌, ◌<◌, ◌≡◌, ◌⊎◌, refl, ap, String, Bool, true, false, not, ◌&&◌, List, [], ◌∷◌, inl, inr,
  is_some, arith, Bool-cases, subst, sym,
}
use financial_notification_p.Core.Exceptions.{Result, ok, err, frequency_cap_exceeded}
use financial_notification_p.Redis.Server.{
  Redis, Calendar, cooldown_key, global_daily_key, channel_daily_key, category_hourly_key,
}
use financial_notification_p.Redis.SpecCap.{
  CapMetadata, metadata, event_code_to_category, check, check_all, check_and_increment,
  increment_all, read_count, global_daily_cap, category_hourly_cap, channel_limit,
}
use financial_notification_p.Redis.SpecCap.Counting.{Dimension, global, of_channel, of_category}

pub record Request : Type 0 where
  pub at : ℕ
  pub user : String
  pub channel : String
  pub event : String
  pub is_critical : Bool
  pub is_mandatory : Bool

-- Calls come in the order of their times, none before `t` and none after `u`.
abbrev pub IsOrdered : ℕ → ℕ → List Request → Type 0
IsOrdered t u [] = t ≤ u
IsOrdered t u (q ∷ qs) = (t ≤ q.at) × IsOrdered q.at u qs

abbrev pub let_through : Result CapMetadata → Bool
let_through (ok _) = true
let_through (err _) = false

-- Critical events are held to no cap, and mandatory ones to none of a channel.
abbrev pub is_subject : Dimension → Request → Bool
is_subject global q = not q.is_critical
is_subject (of_channel _) q = not q.is_critical && not q.is_mandatory
is_subject (of_category _) q = not q.is_critical

-- The checks pass, or refuse for a cap.
check_cases :
    (mandatory : Bool) (limit g c k : ℕ) (cooling : Bool)
    → (check mandatory limit g c k cooling ≡ ok tt)
      ⊎ (check mandatory limit g c k cooling ≡ err frequency_cap_exceeded)
unfolding check
check_cases mandatory limit g c k cooling = ground arith

pub check-ok :
    (mandatory : Bool) (limit g c k : ℕ) (cooling : Bool)
    → check mandatory limit g c k cooling ≡ ok tt
    → (g < global_daily_cap) × (mandatory ≡ false → c < limit) × (k < category_hourly_cap)
unfolding check
check-ok mandatory limit g c k cooling passed = ground arith

pub check-cooling :
    (mandatory : Bool) (limit g c k : ℕ)
    → check mandatory limit g c k true ≡ err frequency_cap_exceeded
unfolding check
check-cooling mandatory limit g c k = ground arith

module _ (r : Redis) (cal : Calendar) where
  abbrev pub perform : Request → r.Store → Result CapMetadata × r.Store
  perform q s =
      check_and_increment r cal q.at q.user q.channel q.event q.is_critical q.is_mandatory s

  -- The store after a sequence of calls.
  abbrev pub perform_all : List Request → r.Store → r.Store
  perform_all [] s = s
  perform_all (q ∷ qs) s = perform_all qs (perform q s).1

  abbrev pub performed : Request → r.Store → r.Store
  performed q s = increment_all r cal q.at q.user q.channel q.event s

  abbrev pub checked : Request → r.Store → Result (Unit {0})
  checked q s = check_all r cal q.at q.user q.channel q.event q.is_mandatory s

  checked_cases :
      (q : Request) (s : r.Store)
      → (checked q s ≡ ok tt) ⊎ (checked q s ≡ err frequency_cap_exceeded)
  unfolding check_all
  checked_cases q s =
      check_cases q.is_mandatory (channel_limit q.channel)
        (read_count r cal q.at (global_daily_key q.user (cal.day q.at)) s)
        (read_count r cal q.at (channel_daily_key q.user q.channel (cal.day q.at)) s)
        (read_count r cal q.at
          (category_hourly_key q.user (event_code_to_category q.event) (cal.hour q.at)) s)
        (is_some (r.get q.at (cooldown_key q.user q.event) s))

  pub perform-critical :
      (q : Request) (s : r.Store)
      → q.is_critical ≡ true
      → perform q s ≡ (ok CapMetadata.bypassed, performed q s)
  unfolding check_and_increment
  perform-critical q s critical =
      subst
        (λ (b : Bool).
          check_and_increment r cal q.at q.user q.channel q.event b q.is_mandatory s
          ≡ (ok CapMetadata.bypassed, performed q s))
        (sym critical) refl

  pub perform-refused :
      (q : Request) (s : r.Store)
      → q.is_critical ≡ false
      → checked q s ≡ err frequency_cap_exceeded
      → perform q s ≡ (err frequency_cap_exceeded, s)
  unfolding check_and_increment
  perform-refused q s ordinary refused =
      subst
        (λ (b : Bool).
          check_and_increment r cal q.at q.user q.channel q.event b q.is_mandatory s
          ≡ (err frequency_cap_exceeded, s))
        (sym ordinary) (rw (refused, check_and_increment) refl)

  perform-passed :
      (q : Request) (s : r.Store)
      → q.is_critical ≡ false
      → checked q s ≡ ok tt
      → perform q s ≡ (ok (metadata r cal q.at q.user q.channel q.event s), performed q s)
  unfolding check_and_increment
  perform-passed q s ordinary passed =
      subst
        (λ (b : Bool).
          check_and_increment r cal q.at q.user q.channel q.event b q.is_mandatory s
          ≡ (ok (metadata r cal q.at q.user q.channel q.event s), performed q s))
        (sym ordinary) (rw (passed, check_and_increment) refl)

  -- A call is let through and counts, as a critical one or with its checks passed, or it is refused
  -- and changes nothing.
  pub perform_cases :
      (q : Request) (s : r.Store)
      → ((let_through (perform q s).0 ≡ true)
          × ((perform q s).1 ≡ performed q s)
          × ((q.is_critical ≡ true) ⊎ (checked q s ≡ ok tt)))
        ⊎ (perform q s ≡ (err frequency_cap_exceeded, s))
  perform_cases q s = elim (Bool-cases q.is_critical) [
    | inl critical ↦
        let done = perform-critical q s critical in
        inl (ap (λ x. let_through x.0) done, ap (λ x. x.1) done, inl critical)
    | inr ordinary ↦ elim (checked_cases q s) [
      | inl passed ↦
          let done = perform-passed q s ordinary passed in
          inl (ap (λ x. let_through x.0) done, ap (λ x. x.1) done, inr passed)
      | inr refused ↦ inr (perform-refused q s ordinary refused)
    ]
  ]
