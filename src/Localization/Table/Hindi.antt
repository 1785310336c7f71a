-- ===== src/Localization/Table/Hindi.antt =====
-- app/localization/translations.py: the Hindi texts.
use financial_notification_p.Prelude.{String, List, [], ◌∷◌}

abbrev pub hindi : List (String × String)
hindi =
    ("greeting", "प्रिय {name}")
    ∷ ("regards", "सादर,\nYourBank टीम")
    ∷ ("contact_support", "सहायता के लिए {helpline} पर संपर्क करें")
    ∷ ("ref_id", "संदर्भ आईडी: {ref_id}")
    ∷ ("transaction_success_title", "लेनदेन सफल")
    ∷ ("transaction_success_body", "₹{amount} का लेनदेन {recipient} को सफलतापूर्वक पूरा हुआ।")
    ∷ ("transaction_failure_title", "लेनदेन विफल")
    ∷ ("transaction_failure_body", "₹{amount} का लेनदेन विफल रहा। कारण: {reason}।")
    ∷ ("transaction_pending_title", "लेनदेन प्रक्रियाधीन")
    ∷ ("transaction_pending_body", "₹{amount} का लेनदेन प्रक्रिया में है।")
    ∷ ("transaction_reversed_title", "लेनदेन वापस")
    ∷ ("transaction_reversed_body", "₹{amount} का लेनदेन वापस कर दिया गया है।")
    ∷ ("payment_due_title", "भुगतान देय अनुस्मारक")
    ∷ ("payment_due_body", "₹{amount} का भुगतान {due_date} को देय है।")
    ∷ ("payment_overdue_title", "भुगतान अतिदेय")
    ∷ ("payment_overdue_body", "₹{amount} का भुगतान {days} दिन से अतिदेय है।")
    ∷ ("payment_received_title", "भुगतान प्राप्त")
    ∷ ("payment_received_body", "₹{amount} का भुगतान प्राप्त हुआ। धन्यवाद!")
    ∷ ("payment_failed_title", "भुगतान विफल")
    ∷ ("payment_failed_body", "₹{amount} का भुगतान संसाधित नहीं हो सका।")
    ∷ ("account_debit_title", "खाते से डेबिट")
    ∷ ("account_debit_body", "आपके खाते से ₹{amount} डेबिट हुआ। शेष: ₹{balance}।")
    ∷ ("account_credit_title", "खाते में क्रेडिट")
    ∷ ("account_credit_body", "आपके खाते में ₹{amount} क्रेडिट हुआ। शेष: ₹{balance}।")
    ∷ ("account_low_balance_title", "कम शेष राशि चेतावनी")
    ∷ (
      "account_low_balance_body",
      "आपकी शेष राशि (₹{balance}) न्यूनतम आवश्यक (₹{minimum}) से कम है।",
    )
    ∷ ("account_blocked_title", "खाता अवरुद्ध")
    ∷ ("account_blocked_body", "आपका खाता अवरुद्ध कर दिया गया है। तुरंत सहायता से संपर्क करें।")
    ∷ ("account_statement_title", "विवरण तैयार")
    ∷ ("account_statement_body", "{period} का खाता विवरण तैयार है।")
    ∷ ("loan_approved_title", "ऋण स्वीकृत!")
    ∷ ("loan_approved_body", "आपका ₹{amount} का ऋण स्वीकृत हो गया! {days} कार्य दिवसों में वितरण।")
    ∷ ("loan_rejected_title", "ऋण आवेदन अस्वीकृत")
    ∷ ("loan_rejected_body", "आपका ऋण आवेदन अस्वीकृत हुआ। कारण: {reason}।")
    ∷ ("loan_disbursed_title", "ऋण वितरित")
    ∷ ("loan_disbursed_body", "₹{amount} आपके खाते में वितरित किया गया है।")
    ∷ ("loan_emi_due_title", "ईएमआई देय अनुस्मारक")
    ∷ ("loan_emi_due_body", "ऋण {loan_id} की ₹{emi_amount} की ईएमआई {due_date} को देय है।")
    ∷ ("loan_emi_missed_title", "ईएमआई छूट गई")
    ∷ (
      "loan_emi_missed_body",
      "₹{emi_amount} की ईएमआई छूट गई। जुर्माने से बचने के लिए अभी भुगतान करें।",
    )
    ∷ ("otp_title", "आपका ओटीपी")
    ∷ (
      "otp_body",
      "{otp} आपका {purpose} के लिए ओटीपी है। {validity} मिनट के लिए वैध। किसी से साझा न करें।",
    )
    ∷ ("suspicious_activity_title", "सुरक्षा चेतावनी")
    ∷ (
      "suspicious_activity_body",
      "आपके खाते पर संदिग्ध गतिविधि का पता चला। तुरंत {helpline} पर कॉल करें।",
    )
    ∷ ("password_changed_title", "पासवर्ड बदला गया")
    ∷ (
      "password_changed_body",
      "आपका पासवर्ड बदल दिया गया। यदि आपने नहीं किया, तो तुरंत सहायता से संपर्क करें।",
    )
    ∷ ("login_detected_title", "नया लॉगिन पता चला")
    ∷ (
      "login_detected_body",
      "{device} से {location} पर नया लॉगिन। आप नहीं हैं? अपना खाता सुरक्षित करें।",
    )
    ∷ ("kyc_approved_title", "केवाईसी सत्यापित")
    ∷ (
      "kyc_approved_body",
      "आपका केवाईसी सफलतापूर्वक सत्यापित हो गया। पूर्ण खाता पहुंच अब उपलब्ध है।",
    )
    ∷ ("kyc_rejected_title", "केवाईसी अस्वीकृत")
    ∷ ("kyc_rejected_body", "आपका केवाईसी अस्वीकृत हुआ। कारण: {reason}। कृपया पुनः जमा करें।")
    ∷ ("investment_matured_title", "निवेश परिपक्व")
    ∷ (
      "investment_matured_body",
      "₹{amount} का आपका निवेश परिपक्व हो गया। क्रेडिट राशि: ₹{maturity_amount}।",
    )
    ∷ ("investment_dividend_title", "लाभांश क्रेडिट")
    ∷ ("investment_dividend_body", "{scheme} के लिए ₹{amount} का लाभांश क्रेडिट हुआ।")
    ∷ ("welcome_title", "YourBank में आपका स्वागत है!")
    ∷ ("welcome_body", "स्वागत है, {name}! आपका खाता तैयार है। हमारी सेवाएं एक्सप्लोर करें।")
    ∷ ("offer_available_title", "आपके लिए विशेष ऑफर!")
    ∷ ("offer_available_body", "आपके लिए नया ऑफर: {offer_description}। {expiry_date} तक वैध।")
    ∷ ("offer_expiring_title", "ऑफर जल्द समाप्त होगा!")
    ∷ (
      "offer_expiring_body",
      "आपका ऑफर '{offer_description}' {expiry_date} को समाप्त होगा। अभी लाभ उठाएं!",
    )
    ∷ []
