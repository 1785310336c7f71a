-- ===== src/Api/Admin/Purge.antt =====
-- What the purge of dead letters erases.
use financial_notification_p.Prelude.{
  ℕ, ◌≡◌, refl, ap, ◌∙◌, true, false, not, List, [], ◌∷◌, keep, arith, length,
}
use financial_notification_p.Prelude.{if◌then◌else◌, Bool-cases, inl, inr}
use financial_notification_p.Core.Exceptions.{Result, ok}
use financial_notification_p.Models.Rows.{Notification, NotificationStateLog}
use financial_notification_p.Models.World.{World}
use financial_notification_p.Redis.Server.{Redis}
use financial_notification_p.Services.Auth.{CurrentUser, require_roles, superadmins}
use financial_notification_p.Services.StateLog.{is_for, history_of, get_history, order_by_time}
use financial_notification_p.Api.Users.{belongs_to, delete_notifications}
use financial_notification_p.Api.Admin.{is_dead, purge_dead_letters}

module _ (gone : List Notification) where
  keep-gone :
      (id : ℕ) (es : List NotificationStateLog)
      → belongs_to gone id ≡ true
      → keep
          (is_for id)
          (keep (λ (e : NotificationStateLog). not (belongs_to gone e.notification_id)) es)
        ≡ []
  keep-gone id [] h = refl
  keep-gone id (e ∷ es) h =
      ground (arith, keep-gone id es h, ap (belongs_to gone) {x = e.notification_id} {y = id})

  keep-others :
      (id : ℕ) (es : List NotificationStateLog)
      → belongs_to gone id ≡ false
      → keep
          (is_for id)
          (keep (λ (e : NotificationStateLog). not (belongs_to gone e.notification_id)) es)
        ≡ keep (is_for id) es
  keep-others id [] h = refl
  keep-others id (e ∷ es) h =
      ground (arith, keep-others id es h, ap (belongs_to gone) {x = e.notification_id} {y = id})

module _ {r : Redis} (u : CurrentUser) (id : ℕ) (w : World r)
    (allowed : require_roles superadmins u ≡ ok u) where
  purged : purge_dead_letters u w ≡ (
    ok (length (keep is_dead w.db.notifications)),
    record w { db = delete_notifications is_dead w.db },
  )
  unfolding purge_dead_letters
  purged = rw (allowed, purge_dead_letters) refl

  -- The purge of dead letters by a superadministrator erases the audit trail of every notification that is
  -- dead, and leaves the history of the others as it was.
  pub purge_dead_letters-erases :
      (get_history id (purge_dead_letters u w).1).0
      ≡ (if belongs_to (keep is_dead w.db.notifications) id then ok [] else (get_history id w).0)
  unfolding get_history history_of delete_notifications
  purge_dead_letters-erases =
      let gone = keep is_dead w.db.notifications in
      let now = ap (λ (q : Result ℕ × World r). (get_history id q.1).0) purged in
      elim (Bool-cases (belongs_to gone id)) [
        | inl mine ↦
            rw mine
              (now ∙ ap (λ es. ok (order_by_time es)) (keep-gone gone id w.db.state_logs mine))
        | inr other ↦
            rw other
              (now ∙ ap (λ es. ok (order_by_time es)) (keep-others gone id w.db.state_logs other))
      ]
