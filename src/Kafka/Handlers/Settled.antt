-- ===== src/Kafka/Handlers/Settled.antt =====
-- What an event leaves behind: no row that the handler added is still pending when it is done.
use financial_notification_p.Prelude.{
  ℕ, ◌≡◌, refl, String, Bool, false, ◌||◌, List, [], ◌∷◌, arith, inl, inr, Bool-cases,
  if◌then◌else◌,
}
use financial_notification_p.Core.Config.{Settings}
use financial_notification_p.Core.Exceptions.{Result, ok, err}
use financial_notification_p.Models.Rows.{Notification}
use financial_notification_p.Models.World.{World, Action}
use financial_notification_p.Redis.Server.{Redis, Calendar}
use financial_notification_p.Services.External.{External}
use financial_notification_p.Services.Factory.{build_notifications}
use financial_notification_p.Services.Dispatcher.{dispatch}
use financial_notification_p.Services.Dispatcher.Settles.{
  PendingIn, PendingIn-mono, to_settle, dispatch-PendingIn,
}
use financial_notification_p.Kafka.Handlers.{
  Payload, dispatch_each, build_and_dispatch, handle_body, commit_or_rollback, handle, read_user_id,
  required, seen_before,
}
use financial_notification_p.Kafka.Handlers.Owed.{owed, Owes, Within, build_notifications-Owes}

module _ {r : Redis} (x : External) (cal : Calendar) (settings : Settings) where
  dispatch-Within :
      (c : ℕ → Bool) (n : Notification) (w : World r)
      → PendingIn (λ i. c i || to_settle n i) w.db.notifications
      → Within {r = r} c (dispatch x cal settings n w)
  dispatch-Within c n w p =
      go (dispatch x cal settings n w) (λ e. dispatch-PendingIn x cal settings c n w e p)
    where
      go :
          (k : Result (Unit {0}) × World r)
          → (k.0 ≡ ok tt → PendingIn c k.1.db.notifications)
          → Within {r = r} c k
      go (ok tt, v) f = f refl
      go (err e, v) f = tt

  bind-Within :
      (c d : ℕ → Bool) (k : Result (Unit {0}) × World r) (f : Action r (Unit {0}))
      → Within {r = r} c k
      → ((w : World r) → PendingIn c w.db.notifications → Within {r = r} d (f w))
      → Within {r = r} d (elim k.0 [ ok _ ↦ f k.1 | err e ↦ (err e, k.1) ])
  bind-Within c d (ok _, w) f p h = h w p
  bind-Within c d (err e, w) f p h = tt

  dispatch_each-Within :
      (c : ℕ → Bool) (ns : List Notification) (w : World r)
      → PendingIn (λ i. c i || owed ns i) w.db.notifications
      → Within {r = r} c (dispatch_each x cal settings ns w)
  unfolding dispatch_each owed
  dispatch_each-Within c [] w p =
      PendingIn-mono (λ i. c i || false) c w.db.notifications (λ i h. ground arith) p
  dispatch_each-Within c (n ∷ ns) w p =
      bind-Within (λ i. c i || owed ns i) c (dispatch x cal settings n w)
        (dispatch_each x cal settings ns)
        (dispatch-Within (λ i. c i || owed ns i) n w
          (PendingIn-mono (λ i. c i || (to_settle n i || owed ns i))
            (λ i. (c i || owed ns i) || to_settle n i) w.db.notifications (λ i h. ground arith) p))
        (λ v q. dispatch_each-Within c ns v q)

  module _ (c : ℕ → Bool) (p : Payload) (w : World r) (q : PendingIn c w.db.notifications) where
    build_and_dispatch-Within :
        (i : ℕ) (e : String) → Within {r = r} c (build_and_dispatch x cal settings i e p w)
    unfolding build_and_dispatch
    build_and_dispatch-Within i e =
        go
          (build_notifications x i e p.priority p.channels p.event_data p.locale p.idempotency_key
            w)
          (build_notifications-Owes x c i e p.priority p.channels p.event_data p.locale
            p.idempotency_key w q)
      where
        go :
            (k : Result (List Notification) × World r)
            → Owes {r = r} c k
            → Within {r = r} c
                (elim k.0 [ ok ns ↦ dispatch_each x cal settings ns k.1 | err b ↦ (err b, k.1) ])
        go (ok ns, v) o = dispatch_each-Within c ns v o
        go (err b, v) o = tt

    handle_body-Within : Within {r = r} c (handle_body x cal settings p w)
    unfolding handle_body
    handle_body-Within = go (read_user_id x p.user_id) (required p.event_type)
      where
        go :
            (a : Result ℕ) (b : Result String)
            → Within {r = r} c (elim a [
              | err e ↦ (err e, w)
              | ok i ↦ elim b [
                | err e ↦ (err e, w)
                | ok e ↦
                    if seen_before p.idempotency_key w.db.notifications
                    then (ok tt, w)
                    else build_and_dispatch x cal settings i e p w
              ]
            ])
        go (err _) b = tt
        go (ok i) (err _) = tt
        go (ok i) (ok e) = elim (Bool-cases (seen_before p.idempotency_key w.db.notifications)) [
          | inl seen ↦ rw seen q
          | inr new ↦ rw new (build_and_dispatch-Within i e)
        ]

    -- Whatever an event does, and whether it raises or not: where the rows that are pending before it
    -- have identifiers of a set, so have the rows that are pending after it.
    pub handle-PendingIn : PendingIn c (handle x cal settings p w).1.db.notifications
    unfolding handle
    handle-PendingIn = go (handle_body x cal settings p w) handle_body-Within
      where
        go :
            (k : Result (Unit {0}) × World r)
            → Within {r = r} c k
            → PendingIn c (commit_or_rollback x cal settings w.db k).1.db.notifications
        go (ok _, v) h = h
        go (err _, v) h = q
