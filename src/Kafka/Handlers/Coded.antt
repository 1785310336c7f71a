-- ===== src/Kafka/Handlers/Coded.antt =====
-- Events whose type is not a member of `FinancialEventType`, as the coded ones of POST /events are.
use financial_notification_p.Prelude.{
  ℕ, ◌≡◌, refl, ◌∙◌, subst, sym, not, [], ap, String, true, false, Option, none, some, List,
  if◌then◌else◌,
}
use financial_notification_p.Core.Constants.{event_of_value}
use financial_notification_p.Core.Config.{Settings}
use financial_notification_p.Core.Exceptions.{Exn, Result, ok, err, value_error}
use financial_notification_p.Models.Rows.{Json, User}
use financial_notification_p.Models.World.{World, lift, pure, ◌>>=◌, >>=-err}
use financial_notification_p.Redis.Server.{Redis, Calendar}
use financial_notification_p.Repositories.Users.{get_user}
use financial_notification_p.Services.External.{External}
use financial_notification_p.Services.EventArguments.{
  PriorityArg, PriorityValue, read_priority, read_event, read_channels, user_locale,
  target_channels,
}
use financial_notification_p.Services.Factory.{build_each, build_for, build_notifications}
use financial_notification_p.Kafka.Handlers.{
  Payload, dispatch_each, build_and_dispatch, handle_body, commit_or_rollback, handle, read_user_id,
  required, seen_before,
}

read_event_unknown : (s : String) → event_of_value s ≡ none → read_event s ≡ err value_error
unfolding read_event
read_event_unknown s unknown = rw (unknown, read_event)

module _ {r : Redis} (x : External) where
  build_for_unknown :
      (u : User) (s : String) (p : PriorityArg) (cs : List String) (d : Json) (l k : Option String)
      (w : World r)
      → event_of_value s ≡ none
      → (e : Exn) × (build_for x u s p cs d l k w ≡ (err e, w))
  unfolding build_for
  build_for_unknown u s p cs d l k w unknown =
      subst
        (λ b.
          (e : Exn) × ((lift (read_priority p) >>= λ pe. lift b >>= λ ee.
          lift (read_channels cs) >>= λ vs.
          build_each x u ee pe d (user_locale l u) k (target_channels vs pe))
              w
            ≡ (err e, w)))
        (sym (read_event_unknown s unknown)) (go (read_priority p))
    where
      go :
          (a : Result PriorityValue)
          → (e : Exn) × ((lift a >>= λ pe. lift (err value_error) >>= λ ee.
                  lift (read_channels cs) >>= λ vs.
                  build_each x u ee pe d (user_locale l u) k (target_channels vs pe))
                w
              ≡ (err e, w))
      go (err e) = (e, refl)
      go (ok pe) = (value_error, refl)

  build_notifications_unknown :
      (i : ℕ) (u : User) (s : String) (p : PriorityArg) (cs : List String) (d : Json)
      (l k : Option String) (w : World r)
      → event_of_value s ≡ none
      → get_user i w.db.users ≡ some u
      → u.is_active ≡ true
      → (e : Exn) × (build_notifications x i s p cs d l k w ≡ (err e, w))
  unfolding build_notifications
  build_notifications_unknown i u s p cs d l k w unknown found active =
      let (e, q) = build_for_unknown u s p cs d l k w unknown in
      (
        e,
        rw (found, build_notifications)
            (subst (λ b. (if not b then pure [] w else build_for x u s p cs d l k w) ≡ (err e, w))
              (sym active) q),
      )

module _ {r : Redis} (x : External) (cal : Calendar) (settings : Settings) where
  build_and_dispatch-raises :
      (p : Payload) (w : World r) (i : ℕ) (s : String) (e : Exn)
      → build_notifications x i s p.priority p.channels p.event_data p.locale p.idempotency_key w
        ≡ (err e, w)
      → build_and_dispatch x cal settings i s p w ≡ (err e, w)
  unfolding build_and_dispatch
  build_and_dispatch-raises p w i s e raised =
      >>=-err
        (build_notifications x i s p.priority p.channels p.event_data p.locale p.idempotency_key)
        (λ ns. dispatch_each x cal settings ns) {w = w} {w' = w} raised

  -- An event that was not handled before comes to `build_and_dispatch`.
  handle_body-new :
      (p : Payload) (w : World r) (i : ℕ) (s : String)
      → p.event_type ≡ some s
      → read_user_id x p.user_id ≡ ok i
      → seen_before p.idempotency_key w.db.notifications ≡ false
      → handle_body x cal settings p w ≡ build_and_dispatch x cal settings i s p w
  unfolding handle_body required
  handle_body-new p w i s typed parsed new =
      rw (parsed, handle_body) (rw (typed, handle_body) (rw (new, handle_body) refl))

  -- An event of an active user whose type is not one of `FinancialEventType`, and that was not handled
  -- before, is put on the dead-letter topic and leaves no trace: no row, no task and no change in Redis.
  pub handle_unknown_event :
      (p : Payload) (w : World r) (i : ℕ) (u : User) (s : String)
      → p.event_type ≡ some s
      → event_of_value s ≡ none
      → read_user_id x p.user_id ≡ ok i
      → seen_before p.idempotency_key w.db.notifications ≡ false
      → get_user i w.db.users ≡ some u
      → u.is_active ≡ true
      → handle x cal settings p w ≡ (true, w)
  unfolding handle
  handle_unknown_event p w i u s typed unknown parsed new found active =
      let (e, q) =
        build_notifications_unknown x i u s p.priority p.channels p.event_data p.locale
          p.idempotency_key w unknown found active in
      ap (commit_or_rollback x cal settings w.db)
        (handle_body-new p w i s typed parsed new ∙ build_and_dispatch-raises p w i s e q)
