-- ===== src/Localization/Table/Telugu.antt =====
-- app/localization/translations_extended.py: the Telugu texts.
use financial_notification_p.Prelude.{String, List, [], ◌∷◌}

abbrev pub telugu : List (String × String)
telugu =
    ("greeting", "ప్రియమైన {name}")
    ∷ ("regards", "గౌరవంగా,\nYourBank బృందం")
    ∷ ("ref_id", "సూచన ID: {ref_id}")
    ∷ ("transaction_success_title", "లావాదేవీ విజయవంతమైంది")
    ∷ ("transaction_success_body", "₹{amount} లావాదేవీ {recipient} కి విజయవంతంగా పూర్తయింది.")
    ∷ ("transaction_failure_title", "లావాదేవీ విఫలమైంది")
    ∷ ("transaction_failure_body", "₹{amount} లావాదేవీ విఫలమైంది. కారణం: {reason}.")
    ∷ ("transaction_pending_title", "లావాదేవీ ప్రాసెస్ అవుతోంది")
    ∷ ("transaction_pending_body", "₹{amount} లావాదేవీ ప్రాసెస్ అవుతోంది.")
    ∷ ("transaction_reversed_title", "లావాదేవీ రివర్స్ అయింది")
    ∷ ("transaction_reversed_body", "₹{amount} లావాదేవీ రివర్స్ చేయబడింది.")
    ∷ ("payment_due_title", "చెల్లింపు రిమైండర్")
    ∷ ("payment_due_body", "₹{amount} చెల్లింపు {due_date} న చెల్లించాలి.")
    ∷ ("payment_overdue_title", "చెల్లింపు ఆలస్యమైంది")
    ∷ ("payment_overdue_body", "₹{amount} చెల్లింపు {days} రోజులుగా ఆలస్యమైంది.")
    ∷ ("payment_received_title", "చెల్లింపు అందుకున్నారు")
    ∷ ("payment_received_body", "₹{amount} చెల్లింపు అందుకున్నారు. ధన్యవాదాలు!")
    ∷ ("payment_failed_title", "చెల్లింపు విఫలమైంది")
    ∷ ("payment_failed_body", "₹{amount} చెల్లింపు ప్రాసెస్ చేయలేదు.")
    ∷ ("account_debit_title", "అకౌంట్ నుండి డెబిట్")
    ∷ ("account_debit_body", "మీ అకౌంట్ నుండి ₹{amount} డెబిట్ అయింది. బ్యాలెన్స్: ₹{balance}.")
    ∷ ("account_credit_title", "అకౌంట్ లో క్రెడిట్")
    ∷ ("account_credit_body", "మీ అకౌంట్ లో ₹{amount} క్రెడిట్ అయింది. బ్యాలెన్స్: ₹{balance}.")
    ∷ ("account_low_balance_title", "తక్కువ బ్యాలెన్స్ హెచ్చరిక")
    ∷ (
      "account_low_balance_body",
      "మీ బ్యాలెన్స్ (₹{balance}) కనీస అవసరమైన (₹{minimum}) కంటే తక్కువగా ఉంది.",
    )
    ∷ ("account_blocked_title", "అకౌంట్ బ్లాక్ అయింది")
    ∷ ("account_blocked_body", "మీ అకౌంట్ బ్లాక్ అయింది. వెంటనే సపోర్ట్ సంప్రదించండి.")
    ∷ ("account_statement_title", "స్టేట్\u{200c}మెంట్ సిద్ధంగా ఉంది")
    ∷ ("account_statement_body", "{period} కాలానికి అకౌంట్ స్టేట్\u{200c}మెంట్ సిద్ధంగా ఉంది.")
    ∷ ("loan_approved_title", "రుణం ఆమోదించబడింది!")
    ∷ ("loan_approved_body", "మీ ₹{amount} రుణం ఆమోదించబడింది! {days} పని దినాలలో విడుదల.")
    ∷ ("loan_rejected_title", "రుణ దరఖాస్తు తిరస్కరించబడింది")
    ∷ ("loan_rejected_body", "మీ రుణ దరఖాస్తు తిరస్కరించబడింది. కారణం: {reason}.")
    ∷ ("loan_disbursed_title", "రుణం విడుదల అయింది")
    ∷ ("loan_disbursed_body", "₹{amount} మీ అకౌంట్ లో జమ చేయబడింది.")
    ∷ ("loan_emi_due_title", "EMI రిమైండర్")
    ∷ ("loan_emi_due_body", "రుణం {loan_id} కు ₹{emi_amount} EMI {due_date} న చెల్లించాలి.")
    ∷ ("loan_emi_missed_title", "EMI మిస్సయింది")
    ∷ (
      "loan_emi_missed_body",
      "₹{emi_amount} EMI మిస్సయింది. పెనాల్టీ నివారించడానికి ఇప్పుడే చెల్లించండి.",
    )
    ∷ ("otp_title", "మీ OTP")
    ∷ (
      "otp_body",
      "{otp} అనేది {purpose} కోసం OTP. {validity} నిమిషాలు వరకు చెల్లుతుంది. ఎవరికీ చెప్పవద్దు.",
    )
    ∷ ("suspicious_activity_title", "భద్రతా హెచ్చరిక")
    ∷ (
      "suspicious_activity_body",
      "మీ అకౌంట్ లో అనుమానాస్పద కార్యకలాపం గుర్తించబడింది. వెంటనే {helpline} కి కాల్ చేయండి.",
    )
    ∷ ("password_changed_title", "పాస్\u{200c}వర్డ్ మార్చబడింది")
    ∷ (
      "password_changed_body",
      "మీ పాస్\u{200c}వర్డ్ మార్చబడింది. మీరు చేయలేదంటే వెంటనే సపోర్ట్ సంప్రదించండి.",
    )
    ∷ ("login_detected_title", "కొత్త లాగిన్ గుర్తించబడింది")
    ∷ (
      "login_detected_body",
      "{device} నుండి {location} లో కొత్త లాగిన్. మీరు కాదా? మీ అకౌంట్ ని సురక్షితపరచండి.",
    )
    ∷ ("kyc_approved_title", "KYC ధృవీకరించబడింది")
    ∷ (
      "kyc_approved_body",
      "మీ KYC విజయవంతంగా ధృవీకరించబడింది. పూర్తి అకౌంట్ యాక్సెస్ ఇప్పుడు అందుబాటులో ఉంది.",
    )
    ∷ ("kyc_rejected_title", "KYC తిరస్కరించబడింది")
    ∷ ("kyc_rejected_body", "మీ KYC తిరస్కరించబడింది. కారణం: {reason}. దయచేసి మళ్లీ సమర్పించండి.")
    ∷ ("welcome_title", "YourBank కి స్వాగతం!")
    ∷ ("welcome_body", "స్వాగతం, {name}! మీ అకౌంట్ సిద్ధంగా ఉంది. మా సేవలను అన్వేషించండి.")
    ∷ ("offer_available_title", "మీకోసం ప్రత్యేక ఆఫర్!")
    ∷ ("offer_available_body", "కొత్త ఆఫర్: {offer_description}. {expiry_date} వరకు చెల్లుతుంది.")
    ∷ ("offer_expiring_title", "ఆఫర్ త్వరలో ముగుస్తోంది!")
    ∷ ("offer_expiring_body", "మీ ఆఫర్ '{offer_description}' {expiry_date} న ముగుస్తుంది.")
    ∷ ("investment_matured_title", "పెట్టుబడి మెచ్యూర్ అయింది")
    ∷ (
      "investment_matured_body",
      "₹{amount} పెట్టుబడి మెచ్యూర్ అయింది. క్రెడిట్ అమౌంట్: ₹{maturity_amount}.",
    )
    ∷ ("investment_dividend_title", "డివిడెండ్ క్రెడిట్")
    ∷ ("investment_dividend_body", "{scheme} కోసం ₹{amount} డివిడెండ్ క్రెడిట్ అయింది.")
    ∷ []
