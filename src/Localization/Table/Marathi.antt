-- ===== src/Localization/Table/Marathi.antt =====
-- app/localization/translations_extended.py: the Marathi texts.
use financial_notification_p.Prelude.{String, List, [], ◌∷◌}

abbrev pub marathi : List (String × String)
marathi =
    ("greeting", "प्रिय {name}")
    ∷ ("regards", "सादर,\nYourBank टीम")
    ∷ ("ref_id", "संदर्भ आईडी: {ref_id}")
    ∷ ("transaction_success_title", "व्यवहार यशस्वी")
    ∷ ("transaction_success_body", "₹{amount} चा व्यवहार {recipient} ला यशस्वीरित्या पूर्ण झाला.")
    ∷ ("transaction_failure_title", "व्यवहार अयशस्वी")
    ∷ ("transaction_failure_body", "₹{amount} चा व्यवहार अयशस्वी. कारण: {reason}.")
    ∷ ("transaction_pending_title", "व्यवहार प्रक्रियेत")
    ∷ ("transaction_pending_body", "₹{amount} चा व्यवहार प्रक्रियेत आहे.")
    ∷ ("transaction_reversed_title", "व्यवहार परत")
    ∷ ("transaction_reversed_body", "₹{amount} चा व्यवहार परत केला गेला आहे.")
    ∷ ("payment_due_title", "देयक स्मरण")
    ∷ ("payment_due_body", "₹{amount} चे देयक {due_date} ला देय आहे.")
    ∷ ("payment_overdue_title", "देयक थकबाकी")
    ∷ ("payment_overdue_body", "₹{amount} चे देयक {days} दिवसांपासून थकबाकी आहे.")
    ∷ ("payment_received_title", "देयक प्राप्त")
    ∷ ("payment_received_body", "₹{amount} चे देयक प्राप्त झाले. धन्यवाद!")
    ∷ ("payment_failed_title", "देयक अयशस्वी")
    ∷ ("payment_failed_body", "₹{amount} चे देयक प्रक्रिया होऊ शकले नाही.")
    ∷ ("account_debit_title", "खात्यातून नावे")
    ∷ ("account_debit_body", "तुमच्या खात्यातून ₹{amount} नावे झाले. शिल्लक: ₹{balance}.")
    ∷ ("account_credit_title", "खात्यात जमा")
    ∷ ("account_credit_body", "तुमच्या खात्यात ₹{amount} जमा झाले. शिल्लक: ₹{balance}.")
    ∷ ("account_low_balance_title", "कमी शिल्लक सूचना")
    ∷ (
      "account_low_balance_body",
      "तुमची शिल्लक (₹{balance}) किमान आवश्यक (₹{minimum}) पेक्षा कमी आहे.",
    )
    ∷ ("account_blocked_title", "खाते अवरोधित")
    ∷ ("account_blocked_body", "तुमचे खाते अवरोधित केले आहे. तात्काळ सहाय्याशी संपर्क करा.")
    ∷ ("account_statement_title", "विवरण तयार")
    ∷ ("account_statement_body", "{period} चे खाते विवरण तयार आहे.")
    ∷ ("loan_approved_title", "कर्ज मंजूर!")
    ∷ ("loan_approved_body", "तुमचे ₹{amount} चे कर्ज मंजूर झाले! {days} कामाच्या दिवसांत वितरण.")
    ∷ ("loan_rejected_title", "कर्ज अर्ज नाकारला")
    ∷ ("loan_rejected_body", "तुमचा कर्ज अर्ज नाकारला गेला. कारण: {reason}.")
    ∷ ("loan_disbursed_title", "कर्ज वितरित")
    ∷ ("loan_disbursed_body", "₹{amount} तुमच्या खात्यात वितरित केले गेले आहे.")
    ∷ ("loan_emi_due_title", "ईएमआय देय स्मरण")
    ∷ ("loan_emi_due_body", "कर्ज {loan_id} चे ₹{emi_amount} ईएमआय {due_date} ला देय आहे.")
    ∷ ("loan_emi_missed_title", "ईएमआय चुकला")
    ∷ ("loan_emi_missed_body", "₹{emi_amount} ईएमआय चुकला. दंड टाळण्यासाठी आत्ता भरा.")
    ∷ ("otp_title", "तुमचा OTP")
    ∷ (
      "otp_body",
      "{otp} हा {purpose} साठी OTP आहे. {validity} मिनिटांसाठी वैध. कुणाशीही शेअर करू नका.",
    )
    ∷ ("suspicious_activity_title", "सुरक्षा सूचना")
    ∷ (
      "suspicious_activity_body",
      "तुमच्या खात्यावर संशयास्पद क्रियाकलाप आढळला. तात्काळ {helpline} वर कॉल करा.",
    )
    ∷ ("password_changed_title", "पासवर्ड बदलला")
    ∷ (
      "password_changed_body",
      "तुमचा पासवर्ड बदलला गेला. तुम्ही नाही केले तर तात्काळ सहाय्यास संपर्क करा.",
    )
    ∷ ("login_detected_title", "नवीन लॉगिन आढळला")
    ∷ (
      "login_detected_body",
      "{device} वरून {location} येथे नवीन लॉगिन. तुम्ही नाही? तुमचे खाते सुरक्षित करा.",
    )
    ∷ ("kyc_approved_title", "KYC सत्यापित")
    ∷ (
      "kyc_approved_body",
      "तुमचे KYC यशस्वीरित्या सत्यापित झाले. पूर्ण खाते प्रवेश आता उपलब्ध आहे.",
    )
    ∷ ("kyc_rejected_title", "KYC नाकारले")
    ∷ ("kyc_rejected_body", "तुमचे KYC नाकारले गेले. कारण: {reason}. कृपया पुन्हा सादर करा.")
    ∷ ("welcome_title", "YourBank मध्ये आपले स्वागत!")
    ∷ ("welcome_body", "स्वागत आहे, {name}! तुमचे खाते तयार आहे. आमच्या सेवा एक्सप्लोर करा.")
    ∷ ("offer_available_title", "तुमच्यासाठी विशेष ऑफर!")
    ∷ ("offer_available_body", "नवीन ऑफर: {offer_description}. {expiry_date} पर्यंत वैध.")
    ∷ ("offer_expiring_title", "ऑफर लवकरच संपणार!")
    ∷ ("offer_expiring_body", "तुमचा ऑफर '{offer_description}' {expiry_date} ला संपणार आहे.")
    ∷ ("investment_matured_title", "गुंतवणूक परिपक्व")
    ∷ (
      "investment_matured_body",
      "₹{amount} ची गुंतवणूक परिपक्व झाली. जमा रक्कम: ₹{maturity_amount}.",
    )
    ∷ ("investment_dividend_title", "लाभांश जमा")
    ∷ ("investment_dividend_body", "{scheme} साठी ₹{amount} लाभांश जमा झाला.")
    ∷ []
