-- ===== src/Models/Preference.antt =====
-- app/models/user_preference.py: the preferences of a user. The opt-outs are one text, a list of
-- event types joined by commas, so it is a list of code points here.
use Prim.Native.Char.{code}
use financial_notification_p.Prelude.{
  ℕ, String, Bool, true, false, ◌&&◌, ◌||◌, not, Option, none, some, List, [], ◌∷◌, ◌++◌, map, keep,
  leb, ◌==◌, if◌then◌else◌,
}
use financial_notification_p.Core.Constants.{FinancialEventType, event_value}
pub mod OptOut

abbrev pub Text : Type 0
Text = List ℕ

-- The code points of a native text.
abbrev pub codes : String → Text
codes String.[] = []
codes (String.◌∷◌ c s) = code c ∷ codes s

pub record UserPreference : Type 0 where
  pub user_id : ℕ
  pub sms_enabled : Bool
  pub email_enabled : Bool
  pub whatsapp_enabled : Bool
  pub push_enabled : Bool
  pub in_app_enabled : Bool
  pub disabled_event_types : Option Text
  pub quiet_hours_enabled : Bool
  pub quiet_hours_start : ℕ
  pub quiet_hours_end : ℕ
  pub frequency_cap_hourly : ℕ
  pub frequency_cap_daily : ℕ
  pub frequency_cap_weekly : ℕ
  pub preferred_locale : String

-- `UserPreference(user_id=user_id)`: the defaults of the columns
abbrev pub default_preference : ℕ → UserPreference
default_preference user_id = record {
  user_id = user_id;
  sms_enabled = true;
  email_enabled = true;
  whatsapp_enabled = false;
  push_enabled = true;
  in_app_enabled = true;
  disabled_event_types = none;
  quiet_hours_enabled = true;
  quiet_hours_start = 22;
  quiet_hours_end = 8;
  frequency_cap_hourly = 0;
  frequency_cap_daily = 0;
  frequency_cap_weekly = 0;
  preferred_locale = "en";
}

-- the ASCII blanks that `str.strip` removes
unfoldable pub is_blank : ℕ → Bool
is_blank c = c == 32 || (leb 9 c && leb c 13) || (leb 28 c && leb c 31)

abbrev pub comma : ℕ
comma = 44

abbrev pub add_to_first : ℕ → List Text → List Text
add_to_first c [] = (c ∷ []) ∷ []
add_to_first c (p ∷ ps) = (c ∷ p) ∷ ps

-- `text.split(",")`: the pieces between commas, at least one
unfoldable pub split_commas : Text → List Text
split_commas [] = [] ∷ []
split_commas (c ∷ s) =
    let pieces = split_commas s in if c == comma then [] ∷ pieces else add_to_first c pieces

unfoldable pub lstrip : Text → Text
lstrip [] = []
lstrip (c ∷ s) = if is_blank c then lstrip s else c ∷ s

-- A blank is dropped when nothing stands behind it.
abbrev pub put_before : ℕ → Text → Text
put_before c [] = if is_blank c then [] else c ∷ []
put_before c (d ∷ t) = c ∷ d ∷ t

unfoldable pub rstrip : Text → Text
rstrip [] = []
rstrip (c ∷ s) = put_before c (rstrip s)

unfoldable pub strip : Text → Text
unfolding lstrip rstrip is_blank
strip s = rstrip (lstrip s)

abbrev pub is_empty : Text → Bool
is_empty [] = true
is_empty (_ ∷ _) = false

unfoldable pub get_disabled_events : UserPreference → List Text
unfolding split_commas strip
get_disabled_events p = elim p.disabled_event_types [
  | none ↦ []
  | some s ↦ if is_empty s then [] else keep (λ e. not (is_empty e)) (map strip (split_commas s))
]

-- `",".join(texts)`
unfoldable pub join_commas : List Text → Text
join_commas [] = []
join_commas (s ∷ []) = s
join_commas (s ∷ t ∷ ts) = s ++ (comma ∷ join_commas (t ∷ ts))

abbrev pub text_eq : Text → Text → Bool
text_eq [] [] = true
text_eq (c ∷ s) (d ∷ t) = c == d && text_eq s t
text_eq _ _ = false

abbrev pub mem : Text → List Text → Bool
mem s [] = false
mem s (t ∷ ts) = if text_eq t s then true else mem s ts
