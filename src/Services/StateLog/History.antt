-- ===== src/Services/StateLog/History.antt =====
-- A notification's history replays what was recorded for it.
use financial_notification_p.Prelude.{
  ℕ, suc, ◌≤◌, ◌≡◌, ◌∙◌, refl, ap, sym, subst, Bool, List, [], ◌∷◌, ◌++◌, keep, map, inl, inr,
  Bool-cases, if◌then◌else◌, arith,
}
use mathlib.Core.List.{append_assoc, append-nil}
use financial_notification_p.Core.Exceptions.{ok}
use financial_notification_p.Models.Rows.{NotificationStateLog}
use financial_notification_p.Models.World.{World}
use financial_notification_p.Redis.Server.{Redis}
use financial_notification_p.Services.Transitions.{Transition}
use financial_notification_p.Services.StateLog.{
  entry, is_for, insert_by_time, order_by_time, history_of, record_transition, get_history,
}

-- Entries at later and later instants, none before `t`, and each before `u`.
abbrev pub IsChronological : ℕ → ℕ → List NotificationStateLog → Type 0
IsChronological t u [] = t ≤ u
IsChronological t u (e ∷ es) = (t ≤ e.created_at) × IsChronological (suc e.created_at) u es

IsChronological-earlier :
    (s t u : ℕ) (es : List NotificationStateLog)
    → s ≤ t
    → IsChronological t u es
    → IsChronological s u es
IsChronological-earlier s t u [] le h = omega arith
IsChronological-earlier s t u (e ∷ es) le (first, rest) = (omega arith, rest)

IsChronological-append :
    (t u v : ℕ) (es fs : List NotificationStateLog)
    → IsChronological t u es
    → IsChronological u v fs
    → IsChronological t v (es ++ fs)
IsChronological-append t u v [] fs h k = IsChronological-earlier t u v fs h k
IsChronological-append t u v (e ∷ es) fs (first, rest) k =
    (first, IsChronological-append (suc e.created_at) u v es fs rest k)

IsChronological-keep :
    (p : NotificationStateLog → Bool) (t u : ℕ) (es : List NotificationStateLog)
    → IsChronological t u es
    → IsChronological t u (keep p es)
IsChronological-keep p t u [] h = h
IsChronological-keep p t u (e ∷ es) (first, rest) = elim (Bool-cases (p e)) [
  | inl kept ↦
      subst (λ (b : Bool). IsChronological t u (if b then e ∷ keep p es else keep p es)) (sym kept)
        (first, IsChronological-keep p (suc e.created_at) u es rest)
  | inr dropped ↦
      subst (λ (b : Bool). IsChronological t u (if b then e ∷ keep p es else keep p es))
        (sym dropped)
        (IsChronological-earlier t (suc e.created_at) u (keep p es) (omega arith)
          (IsChronological-keep p (suc e.created_at) u es rest))
]

insert_by_time-first :
    (u : ℕ) (e : NotificationStateLog) (es : List NotificationStateLog)
    → IsChronological (suc e.created_at) u es
    → insert_by_time e es ≡ e ∷ es
unfolding insert_by_time
insert_by_time-first u e [] h = refl
insert_by_time-first u e (f ∷ es) (first, rest) = ground arith

order_by_time-chronological :
    (t u : ℕ) (es : List NotificationStateLog) → IsChronological t u es → order_by_time es ≡ es
unfolding order_by_time
order_by_time-chronological t u [] h = refl
order_by_time-chronological t u (e ∷ es) (first, rest) =
    ap (insert_by_time e) (order_by_time-chronological (suc e.created_at) u es rest)
    ∙ insert_by_time-first u e es rest

keep-append :
    (p : NotificationStateLog → Bool) (es fs : List NotificationStateLog)
    → keep p (es ++ fs) ≡ keep p es ++ keep p fs
keep-append p [] fs = refl
keep-append p (e ∷ es) fs = ground (arith, keep-append p es fs)

-- A transition of a notification, and the instant at which it is recorded.
pub record Recording : Type 0 where
  pub at : ℕ
  pub notification_id : ℕ
  pub transition : Transition

abbrev pub entry_of : Recording → NotificationStateLog
entry_of q = entry q.at q.notification_id q.transition

module _ {r : Redis} where
  -- The recordings in turn, each at its instant.
  abbrev pub record_all : List Recording → World r → World r
  record_all [] w = w
  record_all (q ∷ qs) w =
      record_all qs (record_transition q.notification_id q.transition (record w { clock = q.at })).1

  record_all-logs :
      (qs : List Recording) (w : World r)
      → (record_all qs w).db.state_logs ≡ w.db.state_logs ++ map entry_of qs
  unfolding record_transition
  record_all-logs [] w = sym (append-nil w.db.state_logs)
  record_all-logs (q ∷ qs) w =
      record_all-logs qs
        (record_transition q.notification_id q.transition (record w { clock = q.at })).1
      ∙ append_assoc w.db.state_logs (entry_of q ∷ []) (map entry_of qs)

  -- Transitions that are recorded for any notifications, at later and later instants after those of a
  -- chronological log: the history of a notification is then what it was before, followed by the
  -- entries of its own transitions in the order in which they were recorded.
  pub get_history-record :
      (id t u v : ℕ) (qs : List Recording) (w : World r)
      → IsChronological t u w.db.state_logs
      → IsChronological u v (map entry_of qs)
      → (get_history id (record_all qs w)).0
        ≡ ok (history_of id w.db.state_logs ++ keep (is_for id) (map entry_of qs))
  unfolding get_history history_of
  get_history-record id t u v qs w before recorded = ap ok (
      ap (λ es. order_by_time (keep (is_for id) es)) (record_all-logs qs w)
      ∙ order_by_time-chronological t v (keep (is_for id) (w.db.state_logs ++ map entry_of qs)) (
          IsChronological-keep (is_for id) t v (w.db.state_logs ++ map entry_of qs)
            (IsChronological-append t u v w.db.state_logs (map entry_of qs) before recorded))
      ∙ keep-append (is_for id) w.db.state_logs (map entry_of qs)
      ∙ ap (λ es. es ++ keep (is_for id) (map entry_of qs))
          (sym (
            order_by_time-chronological t u (keep (is_for id) w.db.state_logs)
              (IsChronological-keep (is_for id) t u w.db.state_logs before))))
