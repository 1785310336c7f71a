-- ===== src/Core/Constants/Events.antt =====
-- The enumerations of app/core/constants.py: the event types.
use financial_notification_p.Prelude.{
  String, ◌≡◌, refl, Option, some, List, [], ◌∷◌, str_eq, eq_iff, Bool, true, find,
}

-- Each enumeration is a `str` enumeration: a member compares as its value does.
pub data FinancialEventType : Type 0 where
  transaction_success transaction_failure transaction_pending : FinancialEventType
  transaction_reversed transaction_disputed payment_due payment_overdue : FinancialEventType
  payment_received payment_failed payment_initiated account_created : FinancialEventType
  account_debit account_credit account_blocked account_unblocked account_closed : FinancialEventType
  account_low_balance account_statement_ready loan_approved loan_rejected : FinancialEventType
  loan_disbursed loan_emi_due loan_emi_paid loan_emi_missed loan_foreclosed : FinancialEventType
  investment_matured investment_dividend investment_purchase : FinancialEventType
  investment_redemption login_detected password_changed otp_generated : FinancialEventType
  suspicious_activity kyc_approved kyc_rejected kyc_pending offer_available : FinancialEventType
  offer_expiring system_maintenance welcome : FinancialEventType

abbrev pub event_value : FinancialEventType → String
event_value transaction_success = "transaction.success"
event_value transaction_failure = "transaction.failure"
event_value transaction_pending = "transaction.pending"
event_value transaction_reversed = "transaction.reversed"
event_value transaction_disputed = "transaction.disputed"
event_value payment_due = "payment.due"
event_value payment_overdue = "payment.overdue"
event_value payment_received = "payment.received"
event_value payment_failed = "payment.failed"
event_value payment_initiated = "payment.initiated"
event_value account_created = "account.created"
event_value account_debit = "account.debit"
event_value account_credit = "account.credit"
event_value account_blocked = "account.blocked"
event_value account_unblocked = "account.unblocked"
event_value account_closed = "account.closed"
event_value account_low_balance = "account.low_balance"
event_value account_statement_ready = "account.statement_ready"
event_value loan_approved = "loan.approved"
event_value loan_rejected = "loan.rejected"
event_value loan_disbursed = "loan.disbursed"
event_value loan_emi_due = "loan.emi_due"
event_value loan_emi_paid = "loan.emi_paid"
event_value loan_emi_missed = "loan.emi_missed"
event_value loan_foreclosed = "loan.foreclosed"
event_value investment_matured = "investment.matured"
event_value investment_dividend = "investment.dividend"
event_value investment_purchase = "investment.purchase"
event_value investment_redemption = "investment.redemption"
event_value login_detected = "security.login_detected"
event_value password_changed = "security.password_changed"
event_value otp_generated = "security.otp_generated"
event_value suspicious_activity = "security.suspicious_activity"
event_value kyc_approved = "kyc.approved"
event_value kyc_rejected = "kyc.rejected"
event_value kyc_pending = "kyc.pending"
event_value offer_available = "offer.available"
event_value offer_expiring = "offer.expiring"
event_value system_maintenance = "system.maintenance"
event_value welcome = "onboarding.welcome"

abbrev pub all_event_types : List FinancialEventType
all_event_types =
    transaction_success ∷ transaction_failure ∷ transaction_pending ∷ transaction_reversed
    ∷ transaction_disputed ∷ payment_due ∷ payment_overdue ∷ payment_received ∷ payment_failed
    ∷ payment_initiated ∷ account_created ∷ account_debit ∷ account_credit ∷ account_blocked
    ∷ account_unblocked ∷ account_closed ∷ account_low_balance ∷ account_statement_ready
    ∷ loan_approved ∷ loan_rejected ∷ loan_disbursed ∷ loan_emi_due ∷ loan_emi_paid
    ∷ loan_emi_missed ∷ loan_foreclosed ∷ investment_matured ∷ investment_dividend
    ∷ investment_purchase ∷ investment_redemption ∷ login_detected ∷ password_changed
    ∷ otp_generated ∷ suspicious_activity ∷ kyc_approved ∷ kyc_rejected ∷ kyc_pending
    ∷ offer_available ∷ offer_expiring ∷ system_maintenance ∷ welcome ∷ []

-- `FinancialEventType(s)`, where `none` is the `ValueError`.
unfoldable pub event_of_value : String → Option FinancialEventType
event_of_value s = find (λ e. str_eq (event_value e) s) all_event_types

pub event_of_value-event_value : (e : FinancialEventType) → event_of_value (event_value e) ≡ some e
unfolding event_of_value
event_of_value-event_value transaction_success = refl
event_of_value-event_value transaction_failure = refl
event_of_value-event_value transaction_pending = refl
event_of_value-event_value transaction_reversed = refl
event_of_value-event_value transaction_disputed = refl
event_of_value-event_value payment_due = refl
event_of_value-event_value payment_overdue = refl
event_of_value-event_value payment_received = refl
event_of_value-event_value payment_failed = refl
event_of_value-event_value payment_initiated = refl
event_of_value-event_value account_created = refl
event_of_value-event_value account_debit = refl
event_of_value-event_value account_credit = refl
event_of_value-event_value account_blocked = refl
event_of_value-event_value account_unblocked = refl
event_of_value-event_value account_closed = refl
event_of_value-event_value account_low_balance = refl
event_of_value-event_value account_statement_ready = refl
event_of_value-event_value loan_approved = refl
event_of_value-event_value loan_rejected = refl
event_of_value-event_value loan_disbursed = refl
event_of_value-event_value loan_emi_due = refl
event_of_value-event_value loan_emi_paid = refl
event_of_value-event_value loan_emi_missed = refl
event_of_value-event_value loan_foreclosed = refl
event_of_value-event_value investment_matured = refl
event_of_value-event_value investment_dividend = refl
event_of_value-event_value investment_purchase = refl
event_of_value-event_value investment_redemption = refl
event_of_value-event_value login_detected = refl
event_of_value-event_value password_changed = refl
event_of_value-event_value otp_generated = refl
event_of_value-event_value suspicious_activity = refl
event_of_value-event_value kyc_approved = refl
event_of_value-event_value kyc_rejected = refl
event_of_value-event_value kyc_pending = refl
event_of_value-event_value offer_available = refl
event_of_value-event_value offer_expiring = refl
event_of_value-event_value system_maintenance = refl
event_of_value-event_value welcome = refl

abbrev pub event_eq : FinancialEventType → FinancialEventType → Bool
event_eq a b = str_eq (event_value a) (event_value b)

pub event_eq_sound : (c d : FinancialEventType) → event_eq c d ≡ true → c ≡ d
event_eq_sound c d h =
    let e : event_value c ≡ event_value d = (eq_iff (event_value c) (event_value d)).0 h in
    cc (event_of_value-event_value c, event_of_value-event_value d)
