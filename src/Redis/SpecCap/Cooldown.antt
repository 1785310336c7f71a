-- ===== src/Redis/SpecCap/Cooldown.antt =====
-- The pause between two notifications of one type, and the reset of a user's counters.
use financial_notification_p.Prelude.{
  ℕ, ◌+◌, ◌≤◌, ◌<◌, ◌≡◌, ◌∙◌, ap, sym, subst, String, Bool, true, false, ◌&&◌, List, [], ◌∷◌,
  Option, some, str_eq, eq_iff, arith, Bool-cases, inl, inr, is_some,
}
use financial_notification_p.Core.Exceptions.{Result, err, frequency_cap_exceeded}
use financial_notification_p.Redis.Server.{
  Redis, RedisLaws, Calendar, cooldown_key, global_daily_key, channel_daily_key,
  category_hourly_key,
}
use financial_notification_p.Redis.SpecCap.{
  CapMetadata, check, check_all, channel_limit, read_count, event_code_to_category, increment_all,
}
use financial_notification_p.Redis.SpecCap.Counting.{increment_all-ne}
use financial_notification_p.Redis.SpecCap.Calls.{
  Request, IsOrdered, let_through, perform, perform_all, performed, perform_cases, perform-refused,
  check-cooling,
}

-- Whether two calls are for one user and one type of event.
abbrev pub same_type : Request → String → String → Bool
same_type q user event = str_eq q.user user && str_eq q.event event

module _ (r : Redis) (laws : RedisLaws r) (cal : Calendar) where
  -- From an instant on and up to another, the cooldown of a user and a type is on.
  abbrev IsCooling : String → String → ℕ → ℕ → r.Store → Type 0
  IsCooling user event t end s =
      (u : ℕ) → t ≤ u → u < end → r.get u (cooldown_key user event) s ≡ some 1

  performed-cooldown :
      (q : Request) (s : r.Store) (u : ℕ)
      → q.at ≤ u
      → u < q.at + 900
      → r.get u (cooldown_key q.user q.event) (performed r cal q s) ≡ some 1
  unfolding increment_all
  performed-cooldown q s u le lt =
      laws.get-setex_live q.at u (cooldown_key q.user q.event) 900 1 _ le lt

  -- A call that is let through starts its own type's cooldown anew, and leaves the others alone.
  performed-IsCooling :
      (user event : String) (t end : ℕ) (q : Request) (s : r.Store)
      → t ≤ q.at
      → end ≤ q.at + 900
      → IsCooling user event t end s
      → IsCooling user event q.at end (performed r cal q s)
  performed-IsCooling user event t end q s le until cooling u le_u lt =
      elim (Bool-cases (same_type q user event)) [
        | inl same ↦
            subst (λ (v : String). r.get u (cooldown_key v event) (performed r cal q s) ≡ some 1)
              ((eq_iff q.user user).0 (ground arith))
              (subst
                (λ (e : String). r.get u (cooldown_key q.user e) (performed r cal q s) ≡ some 1)
                ((eq_iff q.event event).0 (ground arith))
                (performed-cooldown q s u le_u (omega arith)))
        | inr other ↦
            increment_all-ne r laws cal q.at u q.user q.channel q.event s (cooldown_key user event)
              (λ e. cc) (λ e. cc) (λ e. cc)
              (λ e. ground (arith, eq_iff q.user user, eq_iff q.event event))
            ∙ cooling u (omega arith) lt
      ]

  perform_all-IsCooling :
      (user event : String) (t u end : ℕ) (qs : List Request) (s : r.Store)
      → IsOrdered t u qs
      → end ≤ t + 900
      → IsCooling user event t end s
      → IsCooling user event u end (perform_all r cal qs s)
  perform_all-IsCooling user event t u end [] s ordered until cooling =
      λ v le lt. cooling v (omega arith) lt
  perform_all-IsCooling user event t u end (q ∷ qs) s (le, ordered) until cooling =
      perform_all-IsCooling user event q.at u end qs (perform r cal q s).1 ordered (omega arith)
        (elim (perform_cases r cal q s) [
          | inl (through, next, why) ↦
              subst (λ (s' : r.Store). IsCooling user event q.at end s') (sym next)
                (performed-IsCooling user event t end q s le (omega arith) cooling)
          | inr refused ↦
              subst (λ (s' : r.Store). IsCooling user event q.at end s')
                (sym (ap (λ (x : Result CapMetadata × r.Store). x.1) refused))
                (λ v le_v lt. cooling v (omega arith) lt)
        ])

  perform-IsCooling :
      (q : Request) (s : r.Store)
      → let_through (perform r cal q s).0 ≡ true
      → IsCooling q.user q.event q.at (q.at + 900) (perform r cal q s).1
  perform-IsCooling q s through u le lt = elim (perform_cases r cal q s) [
    | inl (_, next, why) ↦
        subst (λ (s' : r.Store). r.get u (cooldown_key q.user q.event) s' ≡ some 1) (sym next)
          (performed-cooldown q s u le lt)
    | inr refused ↦ absurd (cc (ap (λ (x : Result CapMetadata × r.Store). let_through x.0) refused))
  ]

  cooling-refused :
      (q : Request) (s : r.Store)
      → q.is_critical ≡ false
      → r.get q.at (cooldown_key q.user q.event) s ≡ some 1
      → perform r cal q s ≡ (err frequency_cap_exceeded, s)
  unfolding check_all
  cooling-refused q s ordinary cooling = perform-refused r cal q s ordinary (
      subst
        (λ (o : Option ℕ).
          check q.is_mandatory (channel_limit q.channel)
            (read_count r cal q.at (global_daily_key q.user (cal.day q.at)) s)
            (read_count r cal q.at (channel_daily_key q.user q.channel (cal.day q.at)) s)
            (read_count r cal q.at
              (category_hourly_key q.user (event_code_to_category q.event) (cal.hour q.at)) s)
            (is_some o)
          ≡ err frequency_cap_exceeded)
        (sym cooling)
        (check-cooling q.is_mandatory (channel_limit q.channel)
          (read_count r cal q.at (global_daily_key q.user (cal.day q.at)) s)
          (read_count r cal q.at (channel_daily_key q.user q.channel (cal.day q.at)) s)
          (read_count r cal q.at
            (category_hourly_key q.user (event_code_to_category q.event) (cal.hour q.at)) s)))

  -- For a server as documented: once a call for a user and an event has been let through, a critical
  -- one too, each further call for that user and event that is not critical and comes less than 900
  -- seconds later is refused and changes nothing, whatever calls come in between.
  pub cooldown-refuses :
      (first later : Request) (between : List Request) (s : r.Store)
      → let_through (perform r cal first s).0 ≡ true
      → IsOrdered first.at later.at between
      → later.user ≡ first.user
      → later.event ≡ first.event
      → later.is_critical ≡ false
      → later.at < first.at + 900
      → (let s' = perform_all r cal (first ∷ between) s in
          perform r cal later s' ≡ (err frequency_cap_exceeded, s'))
  cooldown-refuses first later between s through ordered same_user same_event ordinary soon =
      let cooling =
        perform_all-IsCooling first.user first.event first.at later.at (first.at + 900) between
          (perform r cal first s).1 ordered (omega arith) (perform-IsCooling first s through) in
      cooling-refused later (perform_all r cal (first ∷ between) s) ordinary (
        subst
          (λ (v : String).
            r.get later.at (cooldown_key v later.event) (perform_all r cal (first ∷ between) s)
            ≡ some 1)
          (sym same_user)
          (subst
            (λ (e : String).
              r.get later.at (cooldown_key first.user e) (perform_all r cal (first ∷ between) s)
              ≡ some 1)
            (sym same_event) (cooling later.at (omega arith) soon)))
