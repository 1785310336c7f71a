-- ===== src/Services/Dispatcher/Settles.antt =====
-- What a dispatch does to the table: it leaves a skipped notification alone, and moves any other out of
-- `pending` by one update of its row.
use financial_notification_p.Prelude.{
  ℕ, ◌≡◌, ◌≢◌, inl, inr, refl, sym, subst, ◌∙◌, Bool, true, false, ◌||◌, some, List, [], ◌∷◌, All,
  arith, ◌==◌, if◌then◌else◌, Bool-cases, Option-cases,
}
use financial_notification_p.Core.Constants.{NotificationStatus, SkipReason, status_eq}
use financial_notification_p.Core.Config.{Settings}
use financial_notification_p.Core.Exceptions.{
  Result, ok, err, quiet_hours_error, dnd_registered_error, frequency_cap_exceeded,
}
use financial_notification_p.Models.Rows.{User, Notification}
use financial_notification_p.Models.World.{World, Action, ◌>>◌}
use financial_notification_p.Redis.Server.{Redis, Calendar}
use financial_notification_p.Repositories.Notifications.{update_status}
use financial_notification_p.Repositories.Notifications.Rows.{KeepsId}
use financial_notification_p.Repositories.Users.{get_user}
use financial_notification_p.Services.External.{External}
use financial_notification_p.Services.Dispatcher.{
  quiet_hours_step, dnd_step, cap_step, compliance_checks, settle, dispatch_to, dispatch,
}

-- Every row that is still pending has an identifier in the set.
abbrev pub PendingIn : (ℕ → Bool) → List Notification → Type 0
PendingIn c = All (λ (m : Notification). m.status ≡ NotificationStatus.pending → c m.id ≡ true)

pub PendingIn-mono :
    (c d : ℕ → Bool) (ns : List Notification)
    → ((i : ℕ) → c i ≡ true → d i ≡ true)
    → PendingIn c ns
    → PendingIn d ns
PendingIn-mono c d [] h p = tt
PendingIn-mono c d (n ∷ ns) h p = (λ e. h n.id (p.0 e), PendingIn-mono c d ns h p.1)

-- An update to another status takes its row out of the set.
pub update_status-PendingIn :
    (c : ℕ → Bool) (id : ℕ) (s : NotificationStatus) (f : Notification → Notification)
    (ns : List Notification)
    → s ≢ NotificationStatus.pending
    → KeepsId f
    → PendingIn (λ i. c i || i == id) ns
    → PendingIn c (update_status id s f ns)
unfolding update_status
update_status-PendingIn c id s f [] ne k p = tt
update_status-PendingIn c id s f (n ∷ ns) ne k p = (
  elim (Bool-cases (n.id == id)) [
    | inl same ↦ rw same (λ e. absurd (ne e))
    | inr other ↦ rw other (λ e. ground (arith, p.0 e))
  ],
  update_status-PendingIn c id s f ns ne k p.1,
)

-- An action that leaves the database as it was.
abbrev KeepsDb : {r : Redis} {A : Type 0} → Action r A → Type 0
KeepsDb {r} m = (w : World r) → (m w).1.db ≡ w.db

then-KeepsDb : {r : Redis} (m k : Action r (Unit {0})) → KeepsDb m → KeepsDb k → KeepsDb (m >> k)
then-KeepsDb {r} m k hm hk w = go (m w).0 (m w).1 (hm w)
  where
    go :
        (x : Result (Unit {0})) (w' : World r)
        → w'.db ≡ w.db
        → (let y : Result (Unit {0}) × World r = elim x [ ok a ↦ k w' | err e ↦ (err e, w') ] in
            y.1.db)
          ≡ w.db
    go (ok _) w' e = hk w' ∙ e
    go (err _) w' e = e

-- The identifier of a notification that a dispatch has to settle.
abbrev pub to_settle : Notification → ℕ → Bool
to_settle n i = if status_eq n.status NotificationStatus.skipped then false else i == n.id

module _ {r : Redis} (x : External) (cal : Calendar) (settings : Settings) where
  quiet_hours_step-KeepsDb :
      (n : Notification) (u : User) → KeepsDb {r = r} (quiet_hours_step x cal settings n u)
  unfolding quiet_hours_step
  quiet_hours_step-KeepsDb n u w = ground arith

  dnd_step-KeepsDb : (n : Notification) (u : User) → KeepsDb {r = r} (dnd_step x cal settings n u)
  unfolding dnd_step
  dnd_step-KeepsDb n u w = ground arith

  cap_step-KeepsDb : (n : Notification) (u : User) → KeepsDb {r = r} (cap_step x cal settings n u)
  unfolding cap_step
  cap_step-KeepsDb n u w = refl

  pub compliance_checks-KeepsDb :
      (n : Notification) (u : User) → KeepsDb {r = r} (compliance_checks x cal settings n u)
  unfolding compliance_checks
  compliance_checks-KeepsDb n u =
      then-KeepsDb (quiet_hours_step x cal settings n u)
        (dnd_step x cal settings n u >> cap_step x cal settings n u) (quiet_hours_step-KeepsDb n u)
        (then-KeepsDb (dnd_step x cal settings n u) (cap_step x cal settings n u)
          (dnd_step-KeepsDb n u) (cap_step-KeepsDb n u))

  settle-PendingIn :
      (c : ℕ → Bool) (n : Notification) (result : Result (Unit {0})) (w : World r)
      → (settle x cal settings n result w).0 ≡ ok tt
      → PendingIn (λ i. c i || i == n.id) w.db.notifications
      → PendingIn c (settle x cal settings n result w).1.db.notifications
  unfolding settle
  settle-PendingIn c n (ok _) w e p =
      update_status-PendingIn c n.id NotificationStatus.queued (λ m. m) w.db.notifications (λ q. cc)
        (λ m. refl) p
  settle-PendingIn c n (err quiet_hours_error) w e p =
      update_status-PendingIn c n.id NotificationStatus.skipped
        (λ m. record m { skip_reason = some SkipReason.quiet_hours }) w.db.notifications (λ q. cc)
        (λ m. refl) p
  settle-PendingIn c n (err dnd_registered_error) w e p =
      update_status-PendingIn c n.id NotificationStatus.skipped
        (λ m. record m { skip_reason = some SkipReason.dnd_registered }) w.db.notifications
        (λ q. cc) (λ m. refl) p
  settle-PendingIn c n (err frequency_cap_exceeded) w e p =
      update_status-PendingIn c n.id NotificationStatus.skipped
        (λ m. record m { skip_reason = some SkipReason.frequency_capped }) w.db.notifications
        (λ q. cc) (λ m. refl) p
  settle-PendingIn c n (err _) w e p = cc

  dispatch_to-PendingIn :
      (c : ℕ → Bool) (n : Notification) (u : User) (w : World r)
      → (dispatch_to x cal settings n u w).0 ≡ ok tt
      → PendingIn (λ i. c i || i == n.id) w.db.notifications
      → PendingIn c (dispatch_to x cal settings n u w).1.db.notifications
  unfolding dispatch_to
  dispatch_to-PendingIn c n u w e p =
      let (result, w') = compliance_checks x cal settings n u w in
      settle-PendingIn c n result w' e (
        subst (λ db. PendingIn (λ i. c i || i == n.id) db.notifications)
          (sym (compliance_checks-KeepsDb n u w)) p)

  -- A dispatch that does not raise settles its notification.
  pub dispatch-PendingIn :
      (c : ℕ → Bool) (n : Notification) (w : World r)
      → (dispatch x cal settings n w).0 ≡ ok tt
      → PendingIn (λ i. c i || to_settle n i) w.db.notifications
      → PendingIn c (dispatch x cal settings n w).1.db.notifications
  unfolding dispatch
  dispatch-PendingIn c n w e p = elim (Bool-cases (status_eq n.status NotificationStatus.skipped)) [
    | inl skipped ↦
        rw (skipped, dispatch)
          (PendingIn-mono (λ i. c i || to_settle n i) c w.db.notifications (λ i h. ground arith) p)
    | inr open_ ↦
        let q : PendingIn (λ i. c i || i == n.id) w.db.notifications =
          PendingIn-mono (λ i. c i || to_settle n i) (λ i. c i || i == n.id) w.db.notifications
            (λ i h. ground arith) p in
        elim (Option-cases (get_user n.user_id w.db.users)) [
          | inl missing ↦
              rw (open_, dispatch)
                (rw (missing, dispatch)
                  (update_status-PendingIn c n.id NotificationStatus.failed
                    (λ m. record m { error_message = some "User not found" }) w.db.notifications
                    (λ q. cc) (λ m. refl) q))
          | inr (user, found) ↦
              rw (open_, dispatch)
                (rw (found, dispatch)
                  (dispatch_to-PendingIn c n user w
                    (rw (open_, dispatch) at (rw (found, dispatch) at e)) q))
        ]
  ]
