-- ===== src/Api/Compliance/Reports.antt =====
-- What the reports for the regulators can say.
use financial_notification_p.Prelude.{
  ℕ, zero, suc, ◌≡◌, refl, sym, subst, String, Bool, true, List, [], ◌∷◌, keep, map, take, All, inl,
  inr, Bool-cases, str_eq, arith, if◌then◌else◌,
}
use financial_notification_p.Core.Constants.{event_of_value}
use financial_notification_p.Core.Exceptions.{ok, err, statement_error}
use financial_notification_p.Models.Rows.{Notification, NotificationStateLog, text}
use financial_notification_p.Models.World.{World}
use financial_notification_p.Redis.Server.{Redis}
use financial_notification_p.Services.Auth.{CurrentUser, require_roles, analysts, admins}
use financial_notification_p.Services.Transitions.{dnd_blocked}
use financial_notification_p.Services.StateLog.{entry}
use financial_notification_p.Api.Compliance.{
  DndCheck, dnd_check, is_dnd_check, bind_event_types, margin_call_events, mandatory_events,
  get_dnd_check_report, get_margin_call_delivery_proof, get_sebi_audit_report,
}

-- An entry that `record_dnd_blocked` has written.
abbrev pub IsBlock : NotificationStateLog → Type 0
IsBlock e =
    (timestamp : String) × (classification : String) × (e
      ≡ entry e.created_at e.notification_id (dnd_blocked timestamp classification))

-- What the report says of a check.
abbrev pub ClearsNumber : DndCheck → Type 0
ClearsNumber c = (c.dnd_result ≡ text "NOT_REGISTERED") × (c.action_taken ≡ "DND_BLOCKED")

dnd_check-ClearsNumber : (e : NotificationStateLog) → IsBlock e → ClearsNumber (dnd_check e)
unfolding dnd_check dnd_blocked
dnd_check-ClearsNumber e (timestamp, classification, written) =
    subst (λ (f : NotificationStateLog). ClearsNumber (dnd_check f)) (sym written) (refl, refl)

margin_calls_unbound : bind_event_types margin_call_events ≡ err statement_error
unfolding bind_event_types event_of_value
margin_calls_unbound = refl

mandatory_unbound : bind_event_types mandatory_events ≡ err statement_error
unfolding bind_event_types event_of_value
mandatory_unbound = refl

All-take : {A : Type 0} (P : A → Type 0) (n : ℕ) (xs : List A) → All P xs → All P (take n xs)
All-take P zero xs h = tt
All-take P (suc n) [] h = tt
All-take P (suc n) (x ∷ xs) (first, rest) = (first, All-take P n xs rest)

All-map :
    {A B : Type 0} (P : A → Type 0) (Q : B → Type 0) (f : A → B) (xs : List A)
    → ((x : A) → P x → Q (f x))
    → All P xs
    → All Q (map f xs)
All-map P Q f [] keeps h = tt
All-map P Q f (x ∷ xs) keeps (first, rest) = (keeps x first, All-map P Q f xs keeps rest)

-- An entry of the DND service, and of no other, was written by `record_dnd_blocked`.
abbrev pub IsLogged : NotificationStateLog → Type 0
IsLogged e = str_eq e.actor "dnd_service" ≡ true → IsBlock e

keep-IsBlock :
    (from to : ℕ) (es : List NotificationStateLog)
    → All IsLogged es
    → All IsBlock (keep (is_dnd_check from to) es)
unfolding is_dnd_check
keep-IsBlock from to [] h = tt
keep-IsBlock from to (e ∷ es) (first, rest) = elim (Bool-cases (is_dnd_check from to e)) [
  | inl kept ↦
      subst
        (λ (b : Bool).
          All IsBlock
            (if b then e ∷ keep (is_dnd_check from to) es else keep (is_dnd_check from to) es))
        (sym kept) (first (ground arith), keep-IsBlock from to es rest)
  | inr dropped ↦
      subst
        (λ (b : Bool).
          All IsBlock
            (if b then e ∷ keep (is_dnd_check from to) es else keep (is_dnd_check from to) es))
        (sym dropped) (keep-IsBlock from to es rest)
]

module _ {r : Redis} where
  -- For an order that shows only rows it is given, and a log in which the entries of the DND service
  -- are those of `record_dnd_blocked`: every row of an analyst's DND report, at any dates and for any
  -- channel, says of the blocked number that it is not registered.
  pub dnd_check_report-ClearsNumber :
      (newest_first : List NotificationStateLog → List NotificationStateLog) (u : CurrentUser)
      (from to : ℕ) (channel : String) (w : World r)
      → ((P : NotificationStateLog → Type 0) (es : List NotificationStateLog)
          → All P es
          → All P (newest_first es))
      → require_roles analysts u ≡ ok u
      → All IsLogged w.db.state_logs
      → (rows : List DndCheck) × (get_dnd_check_report newest_first u from to channel w
          ≡ (ok rows, w))
        × All ClearsNumber rows
  unfolding get_dnd_check_report
  dnd_check_report-ClearsNumber newest_first u from to channel w only_given allowed logged =
      let es = newest_first (keep (is_dnd_check from to) w.db.state_logs) in
      (
        map dnd_check (take 10000 es),
        rw (allowed, get_dnd_check_report) refl,
        All-map IsBlock ClearsNumber dnd_check (take 10000 es) dnd_check-ClearsNumber (
            All-take IsBlock 10000 es (
              only_given IsBlock (keep (is_dnd_check from to) w.db.state_logs)
                (keep-IsBlock from to w.db.state_logs logged))),
      )

  -- Both reports for SEBI ask for coded event types, which are no labels of the column's enumeration:
  -- whatever the dates and the rows, the one fails for every analyst and the other for every
  -- administrator.
  pub sebi_reports-fail :
      (newest_first : List Notification → List Notification) (analyst admin : CurrentUser)
      (from to : ℕ) (w : World r)
      → require_roles analysts analyst ≡ ok analyst
      → require_roles admins admin ≡ ok admin
      → (get_margin_call_delivery_proof newest_first analyst from to w ≡ (err statement_error, w))
        × (get_sebi_audit_report admin from to w ≡ (err statement_error, w))
  unfolding get_margin_call_delivery_proof get_sebi_audit_report
  sebi_reports-fail newest_first analyst admin from to w is_analyst is_admin = (
    rw (is_analyst, get_margin_call_delivery_proof)
        (rw (margin_calls_unbound, get_margin_call_delivery_proof) refl),
    rw (is_admin, get_sebi_audit_report) (rw (mandatory_unbound, get_sebi_audit_report) refl),
  )
