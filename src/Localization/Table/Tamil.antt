-- ===== src/Localization/Table/Tamil.antt =====
-- app/localization/translations_extended.py: the Tamil texts.
use financial_notification_p.Prelude.{String, List, [], ◌∷◌}

abbrev pub tamil : List (String × String)
tamil =
    ("greeting", "அன்பான {name}")
    ∷ ("regards", "மரியாதையுடன்,\nYourBank குழு")
    ∷ ("ref_id", "குறிப்பு ஐடி: {ref_id}")
    ∷ ("transaction_success_title", "பரிவர்த்தனை வெற்றிகரமானது")
    ∷ ("transaction_success_body", "₹{amount} பரிவர்த்தனை {recipient} க்கு வெற்றிகரமாக முடிந்தது.")
    ∷ ("transaction_failure_title", "பரிவர்த்தனை தோல்வியடைந்தது")
    ∷ ("transaction_failure_body", "₹{amount} பரிவர்த்தனை தோல்வியடைந்தது. காரணம்: {reason}.")
    ∷ ("transaction_pending_title", "பரிவர்த்தனை நடைபெறுகிறது")
    ∷ ("transaction_pending_body", "₹{amount} பரிவர்த்தனை செயல்பாட்டில் உள்ளது.")
    ∷ ("transaction_reversed_title", "பரிவர்த்தனை திரும்பப் பெறப்பட்டது")
    ∷ ("transaction_reversed_body", "₹{amount} பரிவர்த்தனை திரும்பப் பெறப்பட்டது.")
    ∷ ("payment_due_title", "கட்டணம் நினைவூட்டல்")
    ∷ ("payment_due_body", "₹{amount} கட்டணம் {due_date} அன்று செலுத்த வேண்டும்.")
    ∷ ("payment_overdue_title", "கட்டணம் தாமதமானது")
    ∷ ("payment_overdue_body", "₹{amount} கட்டணம் {days} நாட்கள் தாமதமானது.")
    ∷ ("payment_received_title", "கட்டணம் பெறப்பட்டது")
    ∷ ("payment_received_body", "₹{amount} கட்டணம் பெறப்பட்டது. நன்றி!")
    ∷ ("payment_failed_title", "கட்டணம் தோல்வியடைந்தது")
    ∷ ("payment_failed_body", "₹{amount} கட்டணம் செயலாக்கப்படவில்லை.")
    ∷ ("account_debit_title", "கணக்கிலிருந்து பற்று")
    ∷ (
      "account_debit_body",
      "உங்கள் கணக்கிலிருந்து ₹{amount} பற்று வைக்கப்பட்டது. இருப்பு: ₹{balance}.",
    )
    ∷ ("account_credit_title", "கணக்கில் வரவு")
    ∷ ("account_credit_body", "உங்கள் கணக்கில் ₹{amount} வரவு வைக்கப்பட்டது. இருப்பு: ₹{balance}.")
    ∷ ("account_low_balance_title", "குறைந்த இருப்பு எச்சரிக்கை")
    ∷ (
      "account_low_balance_body",
      "உங்கள் இருப்பு (₹{balance}) குறைந்தபட்சம் தேவையான (₹{minimum}) விட குறைவாக உள்ளது.",
    )
    ∷ ("account_blocked_title", "கணக்கு தடுக்கப்பட்டது")
    ∷ ("account_blocked_body", "உங்கள் கணக்கு தடுக்கப்பட்டது. உடனடியாக ஆதரவை தொடர்பு கொள்ளுங்கள்.")
    ∷ ("account_statement_title", "அறிக்கை தயார்")
    ∷ ("account_statement_body", "{period} காலத்திற்கான கணக்கு அறிக்கை தயாராக உள்ளது.")
    ∷ ("loan_approved_title", "கடன் அனுமதிக்கப்பட்டது!")
    ∷ (
      "loan_approved_body",
      "உங்கள் ₹{amount} கடன் அனுமதிக்கப்பட்டது! {days} வேலை நாட்களில் விடுவிப்பு.",
    )
    ∷ ("loan_rejected_title", "கடன் விண்ணப்பம் நிராகரிக்கப்பட்டது")
    ∷ ("loan_rejected_body", "உங்கள் கடன் விண்ணப்பம் நிராகரிக்கப்பட்டது. காரணம்: {reason}.")
    ∷ ("loan_disbursed_title", "கடன் வழங்கப்பட்டது")
    ∷ ("loan_disbursed_body", "₹{amount} உங்கள் கணக்கில் வழங்கப்பட்டது.")
    ∷ ("loan_emi_due_title", "EMI நினைவூட்டல்")
    ∷ (
      "loan_emi_due_body",
      "கடன் {loan_id} க்கான ₹{emi_amount} EMI {due_date} அன்று செலுத்த வேண்டும்.",
    )
    ∷ ("loan_emi_missed_title", "EMI தவறவிட்டது")
    ∷ (
      "loan_emi_missed_body",
      "₹{emi_amount} EMI தவறவிட்டது. அபராதத்தை தவிர்க்க இப்போது செலுத்துங்கள்.",
    )
    ∷ ("otp_title", "உங்கள் OTP")
    ∷ (
      "otp_body",
      "{otp} என்பது {purpose} க்கான OTP. {validity} நிமிடங்களுக்கு செல்லுபடியாகும். யாரிடமும் பகிரவேண்டாம்.",
    )
    ∷ ("suspicious_activity_title", "பாதுகாப்பு எச்சரிக்கை")
    ∷ (
      "suspicious_activity_body",
      "உங்கள் கணக்கில் சந்தேகாஸ்பத செயல்பாடு கண்டறியப்பட்டது. உடனடியாக {helpline} ஐ அழைக்கவும்.",
    )
    ∷ ("password_changed_title", "கடவுச்சொல் மாற்றப்பட்டது")
    ∷ (
      "password_changed_body",
      "உங்கள் கடவுச்சொல் மாற்றப்பட்டது. நீங்கள் செய்யவில்லை என்றால் உடனடியாக ஆதரவை தொடர்பு கொள்ளுங்கள்.",
    )
    ∷ ("login_detected_title", "புதிய உள்நுழைவு கண்டறியப்பட்டது")
    ∷ (
      "login_detected_body",
      "{device} இலிருந்து {location} இல் புதிய உள்நுழைவு. நீங்கள் இல்லையா? உங்கள் கணக்கை பாதுகாக்கவும்.",
    )
    ∷ ("kyc_approved_title", "KYC சரிபார்க்கப்பட்டது")
    ∷ (
      "kyc_approved_body",
      "உங்கள் KYC வெற்றிகரமாக சரிபார்க்கப்பட்டது. முழு கணக்கு அணுகல் இப்போது கிடைக்கிறது.",
    )
    ∷ ("kyc_rejected_title", "KYC நிராகரிக்கப்பட்டது")
    ∷ (
      "kyc_rejected_body",
      "உங்கள் KYC நிராகரிக்கப்பட்டது. காரணம்: {reason}. மீண்டும் சமர்ப்பிக்கவும்.",
    )
    ∷ ("welcome_title", "YourBank க்கு வரவேற்கிறோம்!")
    ∷ ("welcome_body", "வரவேற்கிறோம், {name}! உங்கள் கணக்கு தயாராக உள்ளது.")
    ∷ ("offer_available_title", "உங்களுக்கான சிறப்பு சலுகை!")
    ∷ (
      "offer_available_body",
      "புதிய சலுகை: {offer_description}. {expiry_date} வரை செல்லுபடியாகும்.",
    )
    ∷ ("offer_expiring_title", "சலுகை விரைவில் முடியும்!")
    ∷ ("offer_expiring_body", "உங்கள் சலுகை '{offer_description}' {expiry_date} அன்று முடியும்.")
    ∷ ("investment_matured_title", "முதலீடு முதிர்ந்தது")
    ∷ ("investment_matured_body", "₹{amount} முதலீடு முதிர்ந்தது. வரவு தொகை: ₹{maturity_amount}.")
    ∷ ("investment_dividend_title", "ஈவுத்தொகை வரவு")
    ∷ ("investment_dividend_body", "{scheme} க்கான ₹{amount} ஈவுத்தொகை வரவு வைக்கப்பட்டது.")
    ∷ []
