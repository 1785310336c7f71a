-- ===== src/Witnesses/Audit.antt =====
-- The state log and the reports that read it, and the texts in five languages.
use financial_notification_p.Prelude.{◌≡◌, refl, arith, List, [], ◌∷◌, ◌++◌, All, keep, map}
use financial_notification_p.Core.Constants.{UserRole}
use financial_notification_p.Core.Exceptions.{ok, err, statement_error}
use financial_notification_p.Models.Rows.{NotificationStateLog}
use financial_notification_p.Models.Preference.{Text, codes}
use financial_notification_p.Models.World.{World}
use financial_notification_p.Redis.Server.Memory.{memory}
use financial_notification_p.Services.Auth.{CurrentUser, require_roles, analysts, admins}
use financial_notification_p.Services.Transitions.{created, routed, dnd_blocked}
use financial_notification_p.Services.StateLog.{entry, is_for, history_of, get_history}
use financial_notification_p.Services.StateLog.History.{
  Recording, entry_of, record_all, get_history-record,
}
use financial_notification_p.Api.Compliance.{
  DndCheck, get_dnd_check_report, get_margin_call_delivery_proof, get_sebi_audit_report,
}
use financial_notification_p.Api.Compliance.Reports.{
  ClearsNumber, dnd_check_report-ClearsNumber, sebi_reports-fail,
}
use financial_notification_p.Localization.Format.{
  Arguments, no_more, argument, format, parse, get_argument,
}
use financial_notification_p.Localization.Translations.{choose_template, translate}
use financial_notification_p.Localization.Translations.Filled.{
  HasArguments, fields, pieces, translate-filled,
}
use financial_notification_p.Witnesses.Fixtures.{first_row, world_with}

abbrev blocked : NotificationStateLog
blocked = entry 100 3 (dnd_blocked "100" "PROMOTIONAL")

abbrev logged : World memory
logged =
    let w = world_with first_row in
    let db = w.db in record w { db = record db { state_logs = blocked ∷ [] } }

abbrev two_recordings : List Recording
two_recordings =
    record { at = 200; notification_id = 4; transition = created }
    ∷ record { at = 300; notification_id = 3; transition = routed "sms" "notify.sms" }
    ∷ []

get_history-record_example :
    (get_history 3 (record_all two_recordings logged)).0
    ≡ ok (history_of 3 logged.db.state_logs ++ keep (is_for 3) (map entry_of two_recordings))
get_history-record_example =
    get_history-record 3 0 150 400 two_recordings logged (omega arith) (omega arith)

abbrev auditor : CurrentUser
auditor = record { user_id = 7; role = UserRole.admin }

is_analyst : require_roles analysts auditor ≡ ok auditor
unfolding require_roles
is_analyst = refl

is_admin : require_roles admins auditor ≡ ok auditor
unfolding require_roles
is_admin = refl

dnd_check_report-ClearsNumber_example :
    (rows : List DndCheck) × (get_dnd_check_report (λ es. es) auditor 0 1 "sms" logged
      ≡ (ok rows, logged))
    × All ClearsNumber rows
dnd_check_report-ClearsNumber_example =
    dnd_check_report-ClearsNumber (λ es. es) auditor 0 1 "sms" logged (λ P es h. h) is_analyst
      (λ same. ("100", "PROMOTIONAL", refl), tt)

sebi_reports-fail_example :
    (get_margin_call_delivery_proof (λ ns. ns) auditor 0 1 logged ≡ (err statement_error, logged))
    × (get_sebi_audit_report auditor 0 1 logged ≡ (err statement_error, logged))
sebi_reports-fail_example =
    sebi_reports-fail (λ ns. ns) auditor auditor 0 1 logged is_analyst is_admin

abbrev amount : Arguments
amount = argument (codes "amount") (codes "500") no_more

amount_given :
    HasArguments amount (fields (pieces "Your transaction of ₹{amount} is being processed."))
unfolding fields parse get_argument
amount_given = ((codes "500", refl), tt)

translate-filled_example :
    (out : Text) × (format (choose_template "transaction_pending_body" "ta") amount ≡ ok out)
    × (translate "transaction_pending_body" "ta" amount ≡ ok out)
translate-filled_example =
    translate-filled "transaction_pending_body" "ta"
      "Your transaction of ₹{amount} is being processed." amount refl amount_given
