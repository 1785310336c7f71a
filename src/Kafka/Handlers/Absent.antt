-- ===== src/Kafka/Handlers/Absent.antt =====
-- An identifier that is drawn elsewhere: handling an event gives it to no row.
use financial_notification_p.Prelude.{
  ℕ, ◌≡◌, ◌≢◌, refl, sym, subst, ◌∙◌, String, Bool, true, false, not, Option, none, some, List, [],
  ◌∷◌, ◌++◌, inl, inr, arith, Option-cases, if◌then◌else◌,
}
use financial_notification_p.Core.Constants.{
  FinancialEventType, NotificationChannel, NotificationStatus, status_eq,
}
use financial_notification_p.Core.Config.{Settings}
use financial_notification_p.Core.Exceptions.{Result, ok, err}
use financial_notification_p.Models.Rows.{Json, User, Notification}
use financial_notification_p.Models.World.{World, Action, pure, lift, ◌>>=◌}
use financial_notification_p.Redis.Server.{Redis, Calendar}
use financial_notification_p.Repositories.Notifications.{get, update_status}
use financial_notification_p.Repositories.Notifications.Rows.{KeepsId}
use financial_notification_p.Repositories.Users.{get_user}
use financial_notification_p.Services.External.{External}
use financial_notification_p.Services.EventArguments.{
  PriorityArg, PriorityValue, channel_key, read_priority, read_event, read_channels, user_locale,
  target_channels,
}
use financial_notification_p.Services.NotificationRows.{ids_of}
use financial_notification_p.Services.Factory.{
  build_single, build_each, build_for, build_notifications, with_built,
}
use financial_notification_p.Services.Factory.Built.{build_single-Ends}
use financial_notification_p.Services.Dispatcher.{
  compliance_checks, settle, dispatch_to, dispatch, skip_reason_of, set_row_status,
}
use financial_notification_p.Services.Dispatcher.Settles.{compliance_checks-KeepsDb}
use financial_notification_p.Kafka.Handlers.{
  Payload, dispatch_each, build_and_dispatch, handle_body, commit_or_rollback, handle, read_user_id,
  required, seen_before,
}

get-update_none :
    (id j : ℕ) (s : NotificationStatus) (f : Notification → Notification) (ns : List Notification)
    → KeepsId f
    → get id ns ≡ none
    → get id (update_status j s f ns) ≡ none
unfolding update_status
get-update_none id j s f [] k missing = refl
get-update_none id j s f (n ∷ ns) k missing = ground (arith, k n, get-update_none id j s f ns k)

get-append_none :
    (id : ℕ) (n : Notification) (ns : List Notification)
    → n.id ≢ id
    → get id ns ≡ none
    → get id (ns ++ n ∷ []) ≡ none
get-append_none id n [] other missing = ground arith
get-append_none id n (m ∷ ns) other missing = ground (arith, get-append_none id n ns other)

module _ {r : Redis} (id : ℕ) where
  -- No row has the identifier.
  abbrev pub IsAbsent : World r → Type 0
  IsAbsent w = get id w.db.notifications ≡ none

  abbrev Keeps : {A : Type 0} → Action r A → Type 0
  Keeps m = (w : World r) → IsAbsent w → IsAbsent (m w).1

  >>=-Keeps :
      {A B : Type 0} (m : Action r A) (f : A → Action r B)
      → Keeps m
      → ((a : A) → Keeps (f a))
      → Keeps (m >>= f)
  >>=-Keeps {A} {B} m f first next w absent = go (m w) (first w absent)
    where
      go :
          (k : Result A × World r)
          → IsAbsent k.1
          → (let reply : Result B × World r = elim k.0 [ ok a ↦ f a k.1 | err e ↦ (err e, k.1) ] in
              IsAbsent reply.1)
      go (ok a, v) h = next a v h
      go (err e, v) h = h

  lift-Keeps : {A : Type 0} (result : Result A) → Keeps (lift result)
  lift-Keeps result w absent = absent

  unless-Keeps :
      {A : Type 0} (b : Bool) (a : A) (m : Action r A)
      → Keeps m
      → (w : World r) → IsAbsent w
      → (let reply : Result A × World r = if b then (ok a, w) else m w in IsAbsent reply.1)
  unless-Keeps true a m keeps w absent = absent
  unless-Keeps false a m keeps w absent = keeps w absent

  module _ (x : External) (differs : (ids : List ℕ) → x.new_uuid ids ≢ id) where
    module _ (u : User) (e : FinancialEventType) (p : PriorityValue) (d : Json) (l : String) where
      build_single-Keeps :
          (c : NotificationChannel) (k : Option String) → Keeps (build_single x u e c p d l k)
      build_single-Keeps c k w absent = elim (build_single-Ends x u e c p d l k w) [
        | inl (b, raised, _) ↦ subst (λ q. IsAbsent q.1) (sym raised) absent
        | inr (none, w', done, same, _) ↦
            subst (λ q. IsAbsent q.1) (sym done) (subst IsAbsent (sym same) absent)
        | inr (some n, w', done, (added, is_fresh, _, _, _, _), _) ↦
            subst (λ q. IsAbsent q.1) (sym done)
              (subst IsAbsent (sym added) (
                get-append_none id n w.db.notifications
                  (λ same. differs (ids_of w.db.notifications) (sym is_fresh ∙ same)) absent))
      ]

      build_each-Keeps :
          (k : Option String) (cs : List NotificationChannel) → Keeps (build_each x u e p d l k cs)
      unfolding build_each
      build_each-Keeps k [] = λ w absent. absent
      build_each-Keeps k (c ∷ cs) =
          >>=-Keeps (build_single x u e c p d l (channel_key k c))
            (λ built. build_each x u e p d l k cs >>= λ rest. pure (with_built built rest))
            (build_single-Keeps c (channel_key k c))
            (λ built.
              >>=-Keeps (build_each x u e p d l k cs) (λ rest. pure (with_built built rest))
                (build_each-Keeps k cs) (λ rest v h. h))

    module _ (e : String) (p : PriorityArg) (cs : List String) (d : Json)
        (l k : Option String) where
      build_for-Keeps : (u : User) → Keeps (build_for x u e p cs d l k)
      unfolding build_for
      build_for-Keeps u = >>=-Keeps (lift (read_priority p)) _ (lift-Keeps (read_priority p)) (λ pe.
          >>=-Keeps (lift (read_event e)) _ (lift-Keeps (read_event e)) (λ ee.
            >>=-Keeps (lift (read_channels cs)) _ (lift-Keeps (read_channels cs))
              (λ vs. build_each-Keeps u ee pe d (user_locale l u) k (target_channels vs pe))))

      build_notifications-Keeps : (i : ℕ) → Keeps (build_notifications x i e p cs d l k)
      unfolding build_notifications
      build_notifications-Keeps i w absent = elim (Option-cases (get_user i w.db.users)) [
        | inl missing ↦ rw (missing, build_notifications) absent
        | inr (u, found) ↦
            rw (found, build_notifications)
              (unless-Keeps (not u.is_active) [] (build_for x u e p cs d l k) (build_for-Keeps u) w
                absent)
      ]

    module _ (cal : Calendar) (settings : Settings) where
      settle-Keeps :
          (n : Notification) (result : Result (Unit {0})) → Keeps (settle x cal settings n result)
      unfolding settle
      settle-Keeps n (ok _) w absent =
          get-update_none id n.id NotificationStatus.queued (λ m. m) w.db.notifications (λ m. refl)
            absent
      settle-Keeps n (err e) w absent = elim (Option-cases (skip_reason_of e)) [
        | inl passed_on ↦ rw (passed_on, settle) absent
        | inr (reason, known) ↦
            rw (known, settle)
              (get-update_none id n.id NotificationStatus.skipped
                (λ m. record m { skip_reason = some reason }) w.db.notifications (λ m. refl) absent)
      ]

      dispatch_to-Keeps : (n : Notification) (u : User) → Keeps (dispatch_to x cal settings n u)
      unfolding dispatch_to
      dispatch_to-Keeps n u w absent =
          let (result, w') = compliance_checks x cal settings n u w in
          settle-Keeps n result w' (
            subst (λ db. get id db.notifications ≡ none)
              (sym (compliance_checks-KeepsDb x cal settings n u w)) absent)

      dispatch-Keeps : (n : Notification) → Keeps (dispatch x cal settings n)
      unfolding dispatch
      dispatch-Keeps n w absent = elim (Option-cases (get_user n.user_id w.db.users)) [
        | inl missing ↦
            rw (missing, dispatch)
              (unless-Keeps (status_eq n.status NotificationStatus.skipped) tt
                (set_row_status x cal settings n NotificationStatus.failed
                  (λ m. record m { error_message = some "User not found" }))
                (λ v h.
                  get-update_none id n.id NotificationStatus.failed
                    (λ m. record m { error_message = some "User not found" }) v.db.notifications
                    (λ m. refl) h)
                w absent)
        | inr (u, found) ↦
            rw (found, dispatch)
              (unless-Keeps (status_eq n.status NotificationStatus.skipped) tt
                (dispatch_to x cal settings n u) (dispatch_to-Keeps n u) w absent)
      ]

      dispatch_each-Keeps : (ns : List Notification) → Keeps (dispatch_each x cal settings ns)
      unfolding dispatch_each
      dispatch_each-Keeps [] = λ w absent. absent
      dispatch_each-Keeps (n ∷ ns) =
          >>=-Keeps (dispatch x cal settings n) (λ done. dispatch_each x cal settings ns)
            (dispatch-Keeps n) (λ done. dispatch_each-Keeps ns)

      build_and_dispatch-Keeps :
          (i : ℕ) (e : String) (p : Payload) → Keeps (build_and_dispatch x cal settings i e p)
      unfolding build_and_dispatch
      build_and_dispatch-Keeps i e p =
          >>=-Keeps
            (build_notifications x i e p.priority p.channels p.event_data p.locale
              p.idempotency_key)
            (λ ns. dispatch_each x cal settings ns)
            (build_notifications-Keeps e p.priority p.channels p.event_data p.locale
              p.idempotency_key i)
            (λ ns. dispatch_each-Keeps ns)

      handle_body-Keeps : (p : Payload) → Keeps (handle_body x cal settings p)
      unfolding handle_body
      handle_body-Keeps p w absent = go (read_user_id x p.user_id) (required p.event_type)
        where
          go :
              (a : Result ℕ) (b : Result String)
              → IsAbsent
                  (elim a as (λ _. Result (Unit {0}) × World r) [
                    | err e ↦ (err e, w)
                    | ok i ↦ elim b [
                      | err e ↦ (err e, w)
                      | ok e ↦
                          if seen_before p.idempotency_key w.db.notifications
                          then (ok tt, w)
                          else build_and_dispatch x cal settings i e p w
                    ]
                  ]).1
          go (err _) b = absent
          go (ok i) (err _) = absent
          go (ok i) (ok e) =
              unless-Keeps (seen_before p.idempotency_key w.db.notifications) tt
                (build_and_dispatch x cal settings i e p) (build_and_dispatch-Keeps i e p) w absent

      -- An identifier that no row has and that the factory does not draw is that of no row after an event.
      pub handle-IsAbsent :
          (p : Payload) (w : World r) → IsAbsent w → IsAbsent (handle x cal settings p w).1
      unfolding handle
      handle-IsAbsent p w absent =
          go (handle_body x cal settings p w) (handle_body-Keeps p w absent)
        where
          go :
              (k : Result (Unit {0}) × World r)
              → IsAbsent k.1
              → IsAbsent (commit_or_rollback x cal settings w.db k).1
          go (ok _, v) h = h
          go (err _, v) h = absent
