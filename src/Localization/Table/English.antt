-- ===== src/Localization/Table/English.antt =====
-- app/localization/translations.py: the English texts.
use financial_notification_p.Prelude.{String, List, [], ◌∷◌}

abbrev pub english : List (String × String)
english =
    ("greeting", "Dear {name}")
    ∷ ("regards", "Regards,\nYourBank Team")
    ∷ ("contact_support", "Contact support at {helpline}")
    ∷ ("ref_id", "Reference ID: {ref_id}")
    ∷ ("transaction_success_title", "Transaction Successful")
    ∷ ("transaction_success_body", "Your transaction of ₹{amount} to {recipient} was successful.")
    ∷ ("transaction_failure_title", "Transaction Failed")
    ∷ ("transaction_failure_body", "Your transaction of ₹{amount} failed. Reason: {reason}.")
    ∷ ("transaction_pending_title", "Transaction Pending")
    ∷ ("transaction_pending_body", "Your transaction of ₹{amount} is being processed.")
    ∷ ("transaction_reversed_title", "Transaction Reversed")
    ∷ ("transaction_reversed_body", "Your transaction of ₹{amount} has been reversed.")
    ∷ ("payment_due_title", "Payment Due Reminder")
    ∷ ("payment_due_body", "Payment of ₹{amount} is due on {due_date}.")
    ∷ ("payment_overdue_title", "Payment Overdue")
    ∷ ("payment_overdue_body", "Your payment of ₹{amount} is overdue by {days} days.")
    ∷ ("payment_received_title", "Payment Received")
    ∷ ("payment_received_body", "We received your payment of ₹{amount}. Thank you!")
    ∷ ("payment_failed_title", "Payment Failed")
    ∷ ("payment_failed_body", "Your payment of ₹{amount} could not be processed.")
    ∷ ("account_debit_title", "Account Debited")
    ∷ ("account_debit_body", "₹{amount} debited from your account. Balance: ₹{balance}.")
    ∷ ("account_credit_title", "Account Credited")
    ∷ ("account_credit_body", "₹{amount} credited to your account. Balance: ₹{balance}.")
    ∷ ("account_low_balance_title", "Low Balance Alert")
    ∷ (
      "account_low_balance_body",
      "Your balance (₹{balance}) is below the minimum required (₹{minimum}).",
    )
    ∷ ("account_blocked_title", "Account Blocked")
    ∷ ("account_blocked_body", "Your account has been blocked. Contact support immediately.")
    ∷ ("account_statement_title", "Statement Ready")
    ∷ ("account_statement_body", "Your account statement for {period} is ready.")
    ∷ ("loan_approved_title", "Loan Approved!")
    ∷ (
      "loan_approved_body",
      "Your loan of ₹{amount} has been approved! Disbursement in {days} working days.",
    )
    ∷ ("loan_rejected_title", "Loan Application Rejected")
    ∷ ("loan_rejected_body", "Your loan application was rejected. Reason: {reason}.")
    ∷ ("loan_disbursed_title", "Loan Disbursed")
    ∷ ("loan_disbursed_body", "₹{amount} has been disbursed to your account.")
    ∷ ("loan_emi_due_title", "EMI Due Reminder")
    ∷ ("loan_emi_due_body", "EMI of ₹{emi_amount} for loan {loan_id} is due on {due_date}.")
    ∷ ("loan_emi_missed_title", "EMI Missed")
    ∷ ("loan_emi_missed_body", "Your EMI of ₹{emi_amount} was missed. Pay now to avoid penalties.")
    ∷ ("otp_title", "Your OTP")
    ∷ ("otp_body", "{otp} is your OTP for {purpose}. Valid for {validity} minutes. Do NOT share.")
    ∷ ("suspicious_activity_title", "Security Alert")
    ∷ (
      "suspicious_activity_body",
      "Suspicious activity detected on your account. Call {helpline} immediately.",
    )
    ∷ ("password_changed_title", "Password Changed")
    ∷ (
      "password_changed_body",
      "Your password was changed. If not you, contact support immediately.",
    )
    ∷ ("login_detected_title", "New Login Detected")
    ∷ (
      "login_detected_body", "New login from {device} at {location}. Not you? Secure your account.",
    )
    ∷ ("kyc_approved_title", "KYC Verified")
    ∷ (
      "kyc_approved_body",
      "Your KYC has been verified successfully. Full account access is now available.",
    )
    ∷ ("kyc_rejected_title", "KYC Rejected")
    ∷ ("kyc_rejected_body", "Your KYC was rejected. Reason: {reason}. Please resubmit.")
    ∷ ("investment_matured_title", "Investment Matured")
    ∷ (
      "investment_matured_body",
      "Your investment of ₹{amount} has matured. Amount credited: ₹{maturity_amount}.",
    )
    ∷ ("investment_dividend_title", "Dividend Credited")
    ∷ ("investment_dividend_body", "Dividend of ₹{amount} for {scheme} has been credited.")
    ∷ ("welcome_title", "Welcome to YourBank!")
    ∷ ("welcome_body", "Welcome, {name}! Your account is ready. Start exploring our services.")
    ∷ ("offer_available_title", "Exclusive Offer for You!")
    ∷ (
      "offer_available_body",
      "You have a new offer: {offer_description}. Valid till {expiry_date}.",
    )
    ∷ ("offer_expiring_title", "Offer Expiring Soon!")
    ∷ (
      "offer_expiring_body",
      "Your offer '{offer_description}' expires on {expiry_date}. Avail now!",
    )
    ∷ []
