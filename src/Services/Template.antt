-- ===== src/Services/Template.antt =====
-- app/services/template_service.py.
use financial_notification_p.Prelude.{
  ℕ, String, Option, none, some, List, [], ◌∷◌, ◌==◌, str_eq, truthy, find, if◌then◌else◌,
}
use financial_notification_p.Core.Constants.{FinancialEventType, NotificationChannel}
use financial_notification_p.Models.Rows.{Json, User, NotificationTemplate}
use financial_notification_p.Repositories.Templates.{get_by_event_channel_locale}
use financial_notification_p.Services.External.{External}

-- `d[key] = value`
abbrev pub set_item : String → String → Json → Json
set_item k v [] = (k, v) ∷ []
set_item k v ((j, u) ∷ d) = if str_eq j k then (k, v) ∷ d else (j, u) ∷ set_item k v d

pub record Rendered : Type 0 where
  pub subject : Option String
  pub body : String
  pub html_body : Option String
  pub template_id : String

-- An optional part of a template: `none` outside when its rendering raises, and `none` inside when the
-- part is missing or empty.
abbrev pub render_part : External → Json → Option String → Option (Option String)
render_part x context none = some none
render_part x context (some text) =
    if truthy text
    then elim (x.render text context) [ none ↦ none | some out ↦ some (some out) ]
    else some none

abbrev render_found : External → Json → NotificationTemplate → Option Rendered
render_found x context t = elim (x.render t.body context) [
  | none ↦ none
  | some body ↦ elim (render_part x context t.subject) [
    | none ↦ none
    | some subject ↦ elim (render_part x context t.html_body) [
      | none ↦ none
      | some html_body ↦ some (record {
        subject = subject;
        body = body;
        html_body = html_body;
        template_id = x.uuid_text t.id;
      })
    ]
  ]
]

abbrev pub user_context : User → Json → Json
user_context user context =
    set_item "user_email" user.email (set_item "user_name" user.full_name context)

-- `render`, called with a user; `none` when no template fits or the rendering raises
unfoldable pub render :
    External
    → FinancialEventType
    → NotificationChannel
    → String
    → Json
    → User
    → List NotificationTemplate
    → Option Rendered
render x event_type channel locale context user ts =
    elim (get_by_event_channel_locale event_type channel locale ts) [
      | none ↦ none
      | some t ↦ render_found x (user_context user context) t
    ]

-- `render_by_id`
unfoldable pub render_by_id :
    External → ℕ → Json → List NotificationTemplate → Option (Option String × String × ℕ)
render_by_id x id variables ts = elim (find (λ (t : NotificationTemplate). t.id == id) ts) [
  | none ↦ none
  | some t ↦ elim (x.render t.body variables) [
    | none ↦ none
    | some body ↦ elim (render_part x variables t.subject) [
      | none ↦ none
      | some subject ↦ some (subject, body, id)
    ]
  ]
]
