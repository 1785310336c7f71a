-- ===== src/Celery/Tasks/Retry.antt =====
-- A notification that the provider goes on rejecting is tried again until its retries are used up.
use financial_notification_p.Prelude.{
  ℕ, ◌+◌, ◌≤◌, ◌<◌, ◌≡◌, refl, ap, sym, subst, false, some, List, [], ◌∷◌, arith, length, ◌++◌,
  length-append,
}
use native.Mathlib.Nat.{add-zero}
use financial_notification_p.Core.Constants.{NotificationStatus}
use financial_notification_p.Models.Rows.{Notification}
use financial_notification_p.Models.World.{World}
use financial_notification_p.Redis.Server.{Redis}
use financial_notification_p.Celery.Tasks.{
  ChannelResult, replied, Provider, send_notification, retry_notification,
}
use financial_notification_p.Celery.Tasks.Rows.{row, row_written}
use financial_notification_p.Celery.Tasks.Send.{send_exhausted, send_retries}

-- What a provider that always rejects answers.
abbrev pub rejecting : (ℕ → Notification → ChannelResult) → Provider
rejecting reply t n = replied (reply t n)

module _ {r : Redis} where
  abbrev pub at : ℕ → World r → World r
  at t w = record w { clock = t }

  -- One round at the instant `t`: the retry task runs, and then the sending task that it queues.
  abbrev pub round : Provider → ℕ → ℕ → World r → World r
  round send id t w = (send_notification send id (retry_notification id (at t w)).1).1

  abbrev pub rounds : Provider → ℕ → List ℕ → World r → World r
  rounds send id [] w = w
  rounds send id (t ∷ ts) w = rounds send id ts (round send id t w)

  rounds-append :
      (send : Provider) (id : ℕ) (us vs : List ℕ) (w : World r)
      → rounds send id (us ++ vs) w ≡ rounds send id vs (rounds send id us w)
  rounds-append send id [] vs w = refl
  rounds-append send id (t ∷ us) vs w = rounds-append send id us vs (round send id t w)

  -- The status and count of a row.
  abbrev pub Stands : ℕ → NotificationStatus → ℕ → ℕ → World r → Type 0
  Stands id status count max w =
      (n : Notification) × (row id w ≡ some n)
      × (n.id ≡ id)
      × (n.status ≡ status)
      × (n.retry_count ≡ count)
      × (n.max_retries ≡ max)

  pending_row :
      (n : Notification) (t : ℕ) (w : World r)
      → row n.id w ≡ some n
      → row n.id (retry_notification n.id (at t w)).1
        ≡ some (record n { status = NotificationStatus.pending })
  unfolding retry_notification
  pending_row n t w e =
      rw (e, retry_notification)
        (row_written n NotificationStatus.pending (λ m. m) n.id (at t w) (λ m. refl) e)

  round_retries :
      (reply : ℕ → Notification → ChannelResult) (id count max t : ℕ) (s : NotificationStatus)
      (w : World r)
      → ((u : ℕ) (n : Notification) → (reply u n).success ≡ false)
      → Stands id s count max w
      → count + 1 < max
      → Stands id NotificationStatus.retrying (count + 1) max (round (rejecting reply) id t w)
  round_retries reply id count max t s w no_luck (n, e, i, st, c, m) lt =
      let p = record n { status = NotificationStatus.pending } in
      let w1 = (retry_notification n.id (at t w)).1 in
      let e1 : row n.id w1 ≡ some p = pending_row n t w (subst (λ k. row k w ≡ some n) (sym i) e) in
      let (_, found, _, _) =
        send_retries (rejecting reply) p (reply w1.clock p) w1 e1 ((λ q. cc), (λ q. cc)) refl
          (no_luck w1.clock p) (omega (arith, c, m)) in
      subst
        (λ k. Stands k NotificationStatus.retrying (count + 1) max (round (rejecting reply) k t w))
        i (_, found, refl, refl, ap (λ k. k + 1) c, m)

  round_dies :
      (reply : ℕ → Notification → ChannelResult) (id count max t : ℕ) (s : NotificationStatus)
      (w : World r)
      → ((u : ℕ) (n : Notification) → (reply u n).success ≡ false)
      → Stands id s count max w
      → max ≤ count + 1
      → Stands id NotificationStatus.dead (count + 1) max (round (rejecting reply) id t w)
  round_dies reply id count max t s w no_luck (n, e, i, st, c, m) le =
      let p = record n { status = NotificationStatus.pending } in
      let w1 = (retry_notification n.id (at t w)).1 in
      let e1 : row n.id w1 ≡ some p = pending_row n t w (subst (λ k. row k w ≡ some n) (sym i) e) in
      let (_, found, _, _) =
        send_exhausted (rejecting reply) p (reply w1.clock p) w1 e1 ((λ q. cc), (λ q. cc)) refl
          (no_luck w1.clock p) (omega (arith, c, m)) in
      subst (λ k. Stands k NotificationStatus.dead (count + 1) max (round (rejecting reply) k t w))
        i (_, found, refl, refl, ap (λ k. k + 1) c, m)

  dies_at_last :
      (reply : ℕ → Notification → ChannelResult) (id count max t : ℕ) (ts : List ℕ) (w : World r)
      → ((u : ℕ) (n : Notification) → (reply u n).success ≡ false)
      → Stands id NotificationStatus.retrying count max w
      → count + length (t ∷ ts) ≡ max
      → Stands id NotificationStatus.dead max max (rounds (rejecting reply) id (t ∷ ts) w)
  dies_at_last reply id count max t [] w no_luck st n =
      let last : count + 1 ≡ max = omega arith in
      rw (← last) (
        round_dies reply id count (count + 1) t NotificationStatus.retrying w no_luck (rw last st)
          (omega arith))
  dies_at_last reply id count max t (u ∷ ts) w no_luck st n =
      dies_at_last reply id (count + 1) max u ts (round (rejecting reply) id t w) no_luck
        (round_retries reply id count max t NotificationStatus.retrying w no_luck st (omega arith))
        (omega arith)

  waits_until_exhausted :
      (reply : ℕ → Notification → ChannelResult) (id count max : ℕ) (ts : List ℕ) (w : World r)
      → ((u : ℕ) (n : Notification) → (reply u n).success ≡ false)
      → Stands id NotificationStatus.retrying count max w
      → count + length ts < max
      → Stands id NotificationStatus.retrying
          (count + length ts)
          max
          (rounds (rejecting reply) id ts w)
  waits_until_exhausted reply id count max [] w no_luck st n = rw add-zero st
  waits_until_exhausted reply id count max (t ∷ ts) w no_luck st n =
      let sum : count + length (t ∷ ts) ≡ (count + 1) + length ts = omega arith in
      rw sum (
        waits_until_exhausted reply id (count + 1) max ts (round (rejecting reply) id t w) no_luck
          (round_retries reply id count max t NotificationStatus.retrying w no_luck st
            (omega arith))
          (omega arith))

  -- A notification that waits for its retry, with a provider that never answers with success, and as many
  -- rounds as it has retries left, at whatever instants they run: after all of them it is dead with all
  -- its retries counted, and after any fewer of them it still waits for its next one, with those counted.
  pub dies_exhausted :
      (reply : ℕ → Notification → ChannelResult) (id count max : ℕ) (us : List ℕ) (t : ℕ)
      (vs : List ℕ) (w : World r)
      → ((u : ℕ) (n : Notification) → (reply u n).success ≡ false)
      → Stands id NotificationStatus.retrying count max w
      → count + length (us ++ t ∷ vs) ≡ max
      → Stands id NotificationStatus.retrying
          (count + length us)
          max
          (rounds (rejecting reply) id us w)
        × Stands id NotificationStatus.dead max max (rounds (rejecting reply) id (us ++ t ∷ vs) w)
  dies_exhausted reply id count max us t vs w no_luck st n =
      let sum = length-append us (t ∷ vs) in
      let waits = waits_until_exhausted reply id count max us w no_luck st (omega (arith, sum)) in
      (
        waits,
        subst (Stands id NotificationStatus.dead max max)
            (sym (rounds-append (rejecting reply) id us (t ∷ vs) w))
            (dies_at_last reply id (count + length us) max t vs (rounds (rejecting reply) id us w)
              no_luck waits (omega (arith, sum))),
      )
