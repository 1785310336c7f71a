-- ===== src/Redis/FrequencyCap/Exact.antt =====
-- The caps are exact: in each window, the number of requests that were let through stays within the
-- limit, and a request is refused only when a limit is used up.
use financial_notification_p.Prelude.{
  ℕ, ◌+◌, ◌≤◌, ◌<◌, ◌≡◌, ◌⊎◌, ◌↔◌, refl, ◌∙◌, ap, Bool, true, false, ◌&&◌, none, List, [], ◌∷◌,
  ◌==◌, arith, if◌then◌else◌, All, Bool-cases, inl, inr,
}
use native.Mathlib.Nat.{zero-add}
use financial_notification_p.Core.Constants.{
  NotificationChannel, channel_eq, channel_eq_refl, channel_eq_sound,
}
use financial_notification_p.Core.Config.{Settings}
use financial_notification_p.Core.Exceptions.{Result, ok, err}
use financial_notification_p.Redis.Server.{Redis, RedisLaws, Calendar, CalendarLaws, to_count}
use financial_notification_p.Redis.FrequencyCap.{
  Caps, limit_of, check_caps, check_and_increment, increment_counters,
}
use financial_notification_p.Redis.FrequencyCap.Counting.{
  Window, hourly, daily, weekly, key_of, slot_of, slot_span, increment_self, increment_ne,
}

-- One call of `check_and_increment`.
pub record Request : Type 0 where
  pub at : ℕ
  pub user : ℕ
  pub channel : NotificationChannel
  pub caps : Caps

abbrev pub limit_in : Window → Settings → Caps → ℕ
limit_in hourly c caps = limit_of caps.cap_hourly c.frequency_cap_hourly
limit_in daily c caps = limit_of caps.cap_daily c.frequency_cap_daily
limit_in weekly c caps = limit_of caps.cap_weekly c.frequency_cap_weekly

-- Calls come in the order of their times, none before `t`.
abbrev pub IsOrdered : ℕ → List Request → Type 0
IsOrdered t [] = Unit
IsOrdered t (q ∷ qs) = (t ≤ q.at) × IsOrdered q.at qs

abbrev is_ok : Result (Unit {0}) → Bool
is_ok (ok _) = true
is_ok (err _) = false

module _ (r : Redis) (cal : Calendar) (c : Settings) where
  abbrev pub perform : Request → r.Store → Result (Unit {0}) × r.Store
  perform q s = check_and_increment r cal c q.at q.user q.channel q.caps s

  -- The store after a sequence of calls.
  abbrev pub perform_all : List Request → r.Store → r.Store
  perform_all [] s = s
  perform_all (q ∷ qs) s = perform_all qs (perform q s).1

  module _ (w : Window) (user : ℕ) (channel : NotificationChannel) (slot : ℕ) where
    abbrev pub counts_for : Request → Bool
    counts_for q = q.user == user && (channel_eq q.channel channel && slot_of w cal q.at == slot)

    -- How many calls for this user and channel were let through in this slot of the window.
    abbrev pub accepted : List Request → r.Store → ℕ
    accepted [] s = 0
    accepted (q ∷ qs) s =
        (if is_ok (perform q s).0 && counts_for q then 1 else 0) + accepted qs (perform q s).1

-- A call that is let through increments; one that is refused changes nothing.
perform_cases :
    (r : Redis) (cal : Calendar) (c : Settings) (q : Request) (s : r.Store)
    → ((perform r cal c q s) ≡ (ok tt, increment_counters r cal q.at q.user q.channel s))
      ⊎ ((is_ok (perform r cal c q s).0 ≡ false) × ((perform r cal c q s).1 ≡ s))
unfolding check_and_increment
perform_cases r cal c q s = go (check_caps r cal c q.at q.user q.channel q.caps s) refl
  where
    go :
        (x : Result (Unit {0}))
        → check_caps r cal c q.at q.user q.channel q.caps s ≡ x
        → ((perform r cal c q s) ≡ (ok tt, increment_counters r cal q.at q.user q.channel s))
          ⊎ ((is_ok (perform r cal c q s).0 ≡ false) × ((perform r cal c q s).1 ≡ s))
    go (ok _) e = inl (rw (e, check_and_increment))
    go (err x) e = inr (rw (e, check_and_increment), rw (e, check_and_increment))

-- A call passes when each counter that it reads lies below its limit.
perform_ok :
    (r : Redis) (cal : Calendar) (c : Settings) (q : Request) (s : r.Store)
    → ((perform r cal c q s).0 ≡ ok tt) ↔ (
        (w : Window)
        → 0 < limit_in w c q.caps
        → to_count (r.get q.at (key_of w q.user q.channel (slot_of w cal q.at)) s)
          < limit_in w c q.caps)
unfolding check_and_increment check_caps
perform_ok r cal c q s = (there, back)
  where
    there :
        (perform r cal c q s).0 ≡ ok tt
        → (w : Window) → 0 < limit_in w c q.caps
        → to_count (r.get q.at (key_of w q.user q.channel (slot_of w cal q.at)) s)
          < limit_in w c q.caps
    there e hourly pos = ground arith
    there e daily pos = ground arith
    there e weekly pos = ground arith

    back :
        ((w : Window)
          → 0 < limit_in w c q.caps
          → to_count (r.get q.at (key_of w q.user q.channel (slot_of w cal q.at)) s)
            < limit_in w c q.caps)
        → (perform r cal c q s).0 ≡ ok tt
    back h = ground (arith, h hourly, h daily, h weekly)

module _ (r : Redis) (laws : RedisLaws r) (cal : Calendar) (cal_laws : CalendarLaws cal)
    (c : Settings) where
  module _ (w : Window) (user : ℕ) (channel : NotificationChannel) (slot : ℕ) where
    -- From `t` on, the counter of the slot reads `n`.
    abbrev Reads : ℕ → ℕ → r.Store → Type 0
    Reads t n s =
        (u : ℕ)
        → t ≤ u
        → slot_of w cal u ≡ slot
        → to_count (r.get u (key_of w user channel slot) s) ≡ n

    counted :
        (q : Request) (n : ℕ) (s : r.Store)
        → counts_for r cal c w user channel slot q ≡ true
        → Reads q.at n s
        → Reads q.at (1 + n) (increment_counters r cal q.at q.user q.channel s)
    counted q n s yes_counts h u le e = ground (
      arith,
      channel_eq_sound q.channel channel,
      increment_self r laws cal w q.at u q.user q.channel s le,
      slot_span w cal_laws q.at u,
      h q.at,
    )

    not_counted :
        (q : Request) (n : ℕ) (s : r.Store)
        → counts_for r cal c w user channel slot q ≡ false
        → Reads q.at n s
        → Reads q.at n (increment_counters r cal q.at q.user q.channel s)
    not_counted q n s no_count h u le e =
        ap to_count (
          increment_ne r laws cal w q.at u q.user user slot q.channel channel s
            (λ (a, b, d). ground (arith, channel_eq_refl channel)))
        ∙ h u le e

    later : (q : Request) (t n : ℕ) (s : r.Store) → t ≤ q.at → Reads t n s → Reads q.at n s
    later q t n s le h u l e = h u (omega arith) e

    step_reads :
        (q : Request) (t n : ℕ) (s : r.Store)
        → t ≤ q.at
        → Reads t n s
        → Reads q.at
            ((if is_ok (perform r cal c q s).0 && counts_for r cal c w user channel slot q
                then 1
                else 0)
              + n)
            (perform r cal c q s).1
    step_reads q t n s le h = elim (perform_cases r cal c q s) [
      | inl passed ↦ elim (Bool-cases (counts_for r cal c w user channel slot q)) [
        | inl same ↦ rw (passed, same) (counted q n s same (later q t n s le h))
        | inr other ↦ rw (passed, other, zero-add) (not_counted q n s other (later q t n s le h))
      ]
      | inr (refused, kept) ↦ rw (refused, kept, zero-add) (later q t n s le h)
    ]

    All-reads :
        (qs : List Request) (t n : ℕ) (s : r.Store)
        → IsOrdered t qs
        → Reads t n s
        → (u : ℕ) → All (λ (q : Request). q.at ≤ u) qs
        → t ≤ u
        → slot_of w cal u ≡ slot
        → to_count (r.get u (key_of w user channel slot) (perform_all r cal c qs s))
          ≡ accepted r cal c w user channel slot qs s + n
    All-reads [] t n s o h u a le e = omega (arith, h u le e)
    All-reads (q ∷ qs) t n s (le_q, o) h u (below, a) le e =
        let m : ℕ =
          if is_ok (perform r cal c q s).0 && counts_for r cal c w user channel slot q
          then 1
          else 0 in
        omega (
          arith,
          All-reads qs q.at (m + n) (perform r cal c q s).1 o (step_reads q t n s le_q h) u a below
              e,
        )

  -- No counter for this user and channel has been set yet.
  abbrev pub IsFresh : Request → r.Store → Type 0
  IsFresh q s =
      (w : Window) (u : ℕ) → r.get u (key_of w q.user q.channel (slot_of w cal q.at)) s ≡ none

  abbrev pub HasRoom : List Request → Request → r.Store → Window → Type 0
  HasRoom qs q s w =
      0 < limit_in w c q.caps
      → accepted r cal c w q.user q.channel (slot_of w cal q.at) qs s < limit_in w c q.caps

  reads_accepted :
      (w : Window) (qs : List Request) (q : Request) (t : ℕ) (s : r.Store)
      → IsOrdered t qs
      → All (λ (p : Request). p.at ≤ q.at) qs
      → t ≤ q.at
      → IsFresh q s
      → to_count
          (r.get q.at (key_of w q.user q.channel (slot_of w cal q.at)) (perform_all r cal c qs s))
        ≡ accepted r cal c w q.user q.channel (slot_of w cal q.at) qs s
  reads_accepted w qs q t s o a le fresh = omega (
    arith,
    All-reads w q.user q.channel (slot_of w cal q.at) qs t 0 s o (λ u l e. ap to_count (fresh w u))
        q.at a le refl,
  )

  -- For a server and a calendar as documented, after any calls in the order of their times, none later than
  -- the one in question, from a store with nothing in that one's windows: the call is let through exactly
  -- when in each of the three windows (the hour, the day, and what `YYYY-WW` gives) the limit is 0, or the
  -- calls of its user and channel let through in that window are fewer than the limit. The limit is the
  -- caller's cap, or the setting's where that is missing or 0.
  pub cap_exact :
      (qs : List Request) (q : Request) (t : ℕ) (s : r.Store)
      → IsOrdered t qs
      → All (λ (p : Request). p.at ≤ q.at) qs
      → t ≤ q.at
      → IsFresh q s
      → ((perform r cal c q (perform_all r cal c qs s)).0 ≡ ok tt)
        ↔ ((w : Window) → HasRoom qs q s w)
  cap_exact qs q t s o a le fresh = (
    λ passed w pos.
        let below = (perform_ok r cal c q (perform_all r cal c qs s)).0 passed w pos in
        omega (arith, below, reads_accepted w qs q t s o a le fresh),
    λ room.
        (perform_ok r cal c q (perform_all r cal c qs s)).1
          (λ w pos. omega (arith, room w pos, reads_accepted w qs q t s o a le fresh)),
  )
