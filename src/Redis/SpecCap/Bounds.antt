-- ===== src/Redis/SpecCap/Bounds.antt =====
-- No cap is exceeded by the calls that are held to it.
use financial_notification_p.Prelude.{
  ℕ, ◌+◌, ◌-◌, ◌≤◌, ◌<◌, ◌≡◌, ◌⊎◌, ◌∙◌, refl, ap, sym, subst, String, Bool, true, false, ◌&&◌, List,
  [], ◌∷◌, ◌==◌, str_eq, eq_iff, arith, if◌then◌else◌, Bool-cases, inl, inr, is_some,
}
use financial_notification_p.Core.Exceptions.{Result, ok}
use financial_notification_p.Redis.Server.{
  Redis, RedisLaws, Calendar, CalendarLaws, to_count, cooldown_key, global_daily_key,
  channel_daily_key, category_hourly_key,
}
use financial_notification_p.Redis.SpecCap.{
  CapMetadata, check_all, channel_limit, read_count, event_code_to_category,
}
use financial_notification_p.Redis.SpecCap.Counting.{
  Dimension, global, of_channel, of_category, key_of, slot_of, slot_span, cap_of, lies_in,
  dimension_counted, dimension_ne,
}
use financial_notification_p.Redis.SpecCap.Calls.{
  Request, IsOrdered, let_through, is_subject, perform, performed, checked, perform_cases, check-ok,
}

module _ (r : Redis) (cal : Calendar) (d : Dimension) (user : String) (slot : ℕ) where
  abbrev pub counts_for : Request → Bool
  counts_for q = str_eq q.user user && (lies_in d q.channel q.event && slot_of d cal q.at == slot)

  -- How many calls that are held to the cap were let through, for one user in one slot.
  abbrev pub accepted : List Request → r.Store → ℕ
  accepted [] s = 0
  accepted (q ∷ qs) s =
      (if let_through (perform r cal q s).0 && (is_subject d q && counts_for q) then 1 else 0)
      + accepted qs (perform r cal q s).1

  -- From an instant on, and within the slot, the counter reads as a number.
  abbrev pub Reads : ℕ → ℕ → r.Store → Type 0
  Reads t c s =
      (u : ℕ) → t ≤ u → slot_of d cal u ≡ slot → read_count r cal u (key_of d user slot) s ≡ c

module _ (r : Redis) (cal : Calendar) where
  -- What the passed checks say of the three counters.
  passed_counts :
      (q : Request) (s : r.Store)
      → checked r cal q s ≡ ok tt
      → (read_count r cal q.at (global_daily_key q.user (cal.day q.at)) s < cap_of global)
        × (q.is_mandatory ≡ false
            → read_count r cal q.at (channel_daily_key q.user q.channel (cal.day q.at)) s
              < channel_limit q.channel)
        × (read_count r cal q.at
              (category_hourly_key q.user (event_code_to_category q.event) (cal.hour q.at))
              s
            < 3)
  unfolding check_all
  passed_counts q s passed =
      check-ok q.is_mandatory (channel_limit q.channel)
        (read_count r cal q.at (global_daily_key q.user (cal.day q.at)) s)
        (read_count r cal q.at (channel_daily_key q.user q.channel (cal.day q.at)) s)
        (read_count r cal q.at
          (category_hourly_key q.user (event_code_to_category q.event) (cal.hour q.at)) s)
        (is_some (r.get q.at (cooldown_key q.user q.event) s)) passed

  -- A call that is held to a cap passes its checks only below it.
  passed-below :
      (d : Dimension) (q : Request) (s : r.Store)
      → is_subject d q ≡ true
      → lies_in d q.channel q.event ≡ true
      → checked r cal q s ≡ ok tt
      → read_count r cal q.at (key_of d q.user (slot_of d cal q.at)) s < cap_of d
  passed-below global q s subject here passed = (passed_counts q s passed).0
  passed-below (of_channel c) q s subject here passed =
      subst
        (λ (k : String).
          read_count r cal q.at (channel_daily_key q.user k (cal.day q.at)) s < channel_limit k)
        ((eq_iff q.channel c).0 here) ((passed_counts q s passed).1 (ground arith))
  passed-below (of_category c) q s subject here passed =
      subst
        (λ (k : String). read_count r cal q.at (category_hourly_key q.user k (cal.hour q.at)) s < 3)
        ((eq_iff (event_code_to_category q.event) c).0 here) (passed_counts q s passed).2

  subject-not_critical :
      (d : Dimension) (q : Request) → is_subject d q ≡ true → q.is_critical ≡ true → ⊥
  subject-not_critical global q subject critical = ground arith
  subject-not_critical (of_channel _) q subject critical = ground arith
  subject-not_critical (of_category _) q subject critical = ground arith

  module _ (laws : RedisLaws r) (cal_laws : CalendarLaws cal) where
    module _ (d : Dimension) (user : String) (slot t c : ℕ) (q : Request) (s : r.Store) where
      -- After a call that counts, the counter reads as one more.
      Reads-counted :
          t ≤ q.at
          → Reads r cal d user slot t c s
          → counts_for r cal d user slot q ≡ true
          → Reads r cal d user slot q.at (c + 1) (performed r cal q s)
      Reads-counted le reads here u le_u in_slot =
          let same_user : q.user ≡ user = (eq_iff q.user user).0 (ground arith) in
          let same_slot : slot_of d cal q.at ≡ slot = ground arith in
          subst (λ (v : String). read_count r cal u (key_of d v slot) (performed r cal q s) ≡ c + 1)
            same_user
            (subst (λ (i : ℕ). read_count r cal u (key_of d q.user i) (performed r cal q s) ≡ c + 1)
              same_slot
              (dimension_counted r laws cal q.at u q.user q.channel q.event s d (ground arith) le_u
                  (slot_span d cal_laws q.at u (same_slot ∙ sym in_slot))
                ∙ ap (λ n. n + 1)
                    (subst
                      (λ (v : String).
                        read_count r cal q.at (key_of d v (slot_of d cal q.at)) s ≡ c)
                      (sym same_user)
                      (subst (λ (i : ℕ). read_count r cal q.at (key_of d user i) s ≡ c)
                        (sym same_slot) (reads q.at le same_slot)))))

      Reads-other :
          t ≤ q.at
          → Reads r cal d user slot t c s
          → counts_for r cal d user slot q ≡ false
          → Reads r cal d user slot q.at c (performed r cal q s)
      Reads-other le reads elsewhere u le_u in_slot =
          ap to_count
            (dimension_ne r laws cal q.at u q.user q.channel q.event s d user slot elsewhere)
          ∙ reads u (omega arith) in_slot

      -- A call that is held to the cap and let through met the counter below the cap.
      Reads-below :
          t ≤ q.at
          → Reads r cal d user slot t c s
          → counts_for r cal d user slot q ≡ true
          → is_subject d q ≡ true
          → (q.is_critical ≡ true) ⊎ (checked r cal q s ≡ ok tt)
          → c < cap_of d
      Reads-below le reads here subject (inl critical) =
          absurd (subject-not_critical d q subject critical)
      Reads-below le reads here subject (inr passed) =
          let same_user : q.user ≡ user = (eq_iff q.user user).0 (ground arith) in
          let same_slot : slot_of d cal q.at ≡ slot = ground arith in
          let below = passed-below d q s subject (ground arith) passed in
          subst (λ (n : ℕ). n < cap_of d) (reads q.at le same_slot)
            (subst (λ (v : String). read_count r cal q.at (key_of d v slot) s < cap_of d) same_user
              (subst (λ (i : ℕ). read_count r cal q.at (key_of d q.user i) s < cap_of d) same_slot
                below))

    -- What the calls after one that was performed may still let through, given the bound for them.
    accepted-performed :
        (d : Dimension) (user : String) (slot t c : ℕ) (q : Request) (qs : List Request)
        (s : r.Store)
        → t ≤ q.at
        → Reads r cal d user slot t c s
        → ((c' : ℕ)
            → Reads r cal d user slot q.at c' (performed r cal q s)
            → accepted r cal d user slot qs (performed r cal q s) ≤ cap_of d - c')
        → accepted r cal d user slot qs (performed r cal q s)
          ≤ cap_of d - (if counts_for r cal d user slot q then c + 1 else c)
    accepted-performed d user slot t c q qs s le reads rest =
        elim (Bool-cases (counts_for r cal d user slot q)) [
          | inl here ↦ rw here (rest (c + 1) (Reads-counted d user slot t c q s le reads here))
          | inr elsewhere ↦
              rw elsewhere (rest c (Reads-other d user slot t c q s le reads elsewhere))
        ]

    step_bound :
        (through subject here : Bool) (n cap c : ℕ)
        → ((subject && here) ≡ true → c < cap)
        → n ≤ cap - (if here then c + 1 else c)
        → (if through && (subject && here) then 1 else 0) + n ≤ cap - c
    step_bound through true true n cap c below h = ground (arith, below refl)
    step_bound through true false n cap c below h = ground arith
    step_bound through false true n cap c below h = ground arith
    step_bound through false false n cap c below h = ground arith

    -- For a server and a calendar as documented, and calls in the order of their times, whoever they
    -- are for: of those that are held to a cap (the user's 12 a day, the channel's a day, or the
    -- category's 3 an hour), no more are let through in one day or hour than the cap leaves above
    -- what the counter reads before them.
    pub accepted-within_cap :
        (d : Dimension) (user : String) (slot t u c : ℕ) (qs : List Request) (s : r.Store)
        → IsOrdered t u qs
        → Reads r cal d user slot t c s
        → accepted r cal d user slot qs s ≤ cap_of d - c
    accepted-within_cap d user slot t u c [] s ordered reads = omega arith
    accepted-within_cap d user slot t u c (q ∷ qs) s (le, ordered) reads =
        elim (perform_cases r cal q s) [
          | inr refused ↦
              subst
                (λ (x : Result CapMetadata × r.Store).
                  (if let_through x.0 && (is_subject d q && counts_for r cal d user slot q)
                      then 1
                      else 0)
                    + accepted r cal d user slot qs x.1
                  ≤ cap_of d - c)
                (sym refused)
                (omega (
                  arith,
                  accepted-within_cap d user slot q.at u c qs s ordered
                      (λ v le_v. reads v (omega arith)),
                ))
          | inl (through, next, why) ↦
              subst
                (λ (s' : r.Store).
                  (if let_through (perform r cal q s).0
                        && (is_subject d q && counts_for r cal d user slot q)
                      then 1
                      else 0)
                    + accepted r cal d user slot qs s'
                  ≤ cap_of d - c)
                (sym next)
                (step_bound (let_through (perform r cal q s).0) (is_subject d q)
                  (counts_for r cal d user slot q)
                  (accepted r cal d user slot qs (performed r cal q s)) (cap_of d) c
                  (λ both.
                    Reads-below d user slot t c q s le reads (ground arith) (ground arith) why)
                  (accepted-performed d user slot t c q qs s le reads (λ c'.
                    accepted-within_cap d user slot q.at u c' qs (performed r cal q s) ordered)))
        ]
