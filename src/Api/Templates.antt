-- ===== src/Api/Templates.antt =====
-- app/api/v1/endpoints/templates.py and the requests of app/schemas/template.py.
use financial_notification_p.Prelude.{
  ℕ, suc, ◌+◌, String, Bool, true, false, not, ◌&&◌, matches, ◌||◌, Option, none, some, List, [],
  ◌∷◌, ◌++◌, any, find, keep, map, ◌==◌, get_or, or_else, is_some, truthy, str_eq, if◌then◌else◌,
}
use financial_notification_p.Core.Constants.{
  FinancialEventType, NotificationChannel, event_eq, channel_eq,
}
use financial_notification_p.Core.Exceptions.{Result, ok, err, http_exception, integrity_error}
use financial_notification_p.Models.Rows.{Json, NotificationTemplate}
use financial_notification_p.Models.World.{World, Action}
use financial_notification_p.Redis.Server.{Redis}
use financial_notification_p.Repositories.Templates.{get_by_event_channel_locale}
use financial_notification_p.Schemas.Pagination.{PaginationParams, PaginatedResponse, list_page}
use financial_notification_p.Services.Auth.{CurrentUser, require_roles, admins, analysts}
use financial_notification_p.Services.External.{External}
use financial_notification_p.Services.Template.{render_by_id}
pub mod Creation

pub record TemplateCreate : Type 0 where
  pub name : String
  pub event_type : FinancialEventType
  pub channel : NotificationChannel
  pub locale : String
  pub subject : Option String
  pub body : String
  pub html_body : Option String
  pub variables : Option Json
  pub description : Option String

-- A field that the request leaves out is `none`.
pub record TemplateUpdate : Type 0 where
  pub name : Option String
  pub subject : Option String
  pub body : Option String
  pub html_body : Option String
  pub variables : Option Json
  pub is_active : Option Bool
  pub description : Option String

abbrev pub has_updates : TemplateUpdate → Bool
has_updates p =
    is_some p.name
    || (is_some p.subject
        || (is_some p.body
            || (is_some p.html_body
                || (is_some p.variables || (is_some p.is_active || is_some p.description)))))

unfoldable pub apply_update : TemplateUpdate → NotificationTemplate → NotificationTemplate
apply_update p t = record t {
  name = get_or p.name t.name;
  subject = or_else p.subject t.subject;
  body = get_or p.body t.body;
  html_body = or_else p.html_body t.html_body;
  variables = or_else p.variables t.variables;
  is_active = get_or p.is_active t.is_active;
  description = or_else p.description t.description;
  version = t.version + 1;
}

abbrev pub new_template : ℕ → TemplateCreate → NotificationTemplate
new_template id p = record {
  id = id;
  name = p.name;
  event_type = p.event_type;
  channel = p.channel;
  locale = p.locale;
  subject = p.subject;
  body = p.body;
  html_body = p.html_body;
  variables = p.variables;
  is_active = true;
  version = 1;
  description = p.description;
}

-- `uq_template_event_channel_locale`, whether the row is active or not
abbrev pub key_taken : TemplateCreate → List NotificationTemplate → Bool
key_taken p = any (λ (t : NotificationTemplate).
    event_eq t.event_type p.event_type
    && (channel_eq t.channel p.channel && str_eq t.locale p.locale))

abbrev pub get_template_row : ℕ → List NotificationTemplate → Option NotificationTemplate
get_template_row id = find (λ (t : NotificationTemplate). t.id == id)

abbrev pub ids : List NotificationTemplate → List ℕ
ids = map (λ (t : NotificationTemplate). t.id)

-- the filters of `list_templates`; an empty locale is none
unfoldable pub is_listed :
    Option FinancialEventType
    → Option NotificationChannel
    → Option String
    → NotificationTemplate
    → Bool
is_listed event_type channel locale t =
    matches (event_eq t.event_type) event_type
    && (matches (channel_eq t.channel) channel
        && matches (λ (l : String). if truthy l then str_eq t.locale l else true) locale)

module _ {r : Redis} where
  unfoldable pub list_templates :
      (List NotificationTemplate → List NotificationTemplate)
      → CurrentUser
      → PaginationParams
      → Option FinancialEventType
      → Option NotificationChannel
      → Option String
      → Action r (PaginatedResponse NotificationTemplate)
  unfolding list_page is_listed
  list_templates newest_first u p event_type channel locale w = elim (require_roles analysts u) [
    | err e ↦ (err e, w)
    | ok _ ↦ (ok (list_page newest_first (is_listed event_type channel locale) p w.db.templates), w)
  ]

  unfoldable pub create_template :
      External → CurrentUser → TemplateCreate → Action r NotificationTemplate
  create_template x u p w = elim (require_roles admins u) [
    | err e ↦ (err e, w)
    | ok _ ↦ elim (get_by_event_channel_locale p.event_type p.channel p.locale w.db.templates) [
      | some existing ↦ (err (http_exception 409), w)
      | none ↦
          if key_taken p w.db.templates
          then (err integrity_error, w)
          else (let t = new_template (x.new_uuid (ids w.db.templates)) p in
              let db = w.db in
              (ok t, record w { db = record db { templates = db.templates ++ t ∷ [] } }))
    ]
  ]

  unfoldable pub get_template : CurrentUser → ℕ → Action r NotificationTemplate
  get_template u id w = elim (require_roles analysts u) [
    | err e ↦ (err e, w)
    | ok _ ↦ elim (get_template_row id w.db.templates) [
      | none ↦ (err (http_exception 404), w)
      | some t ↦ (ok t, w)
    ]
  ]

  unfoldable pub update_template : CurrentUser → TemplateUpdate → ℕ → Action r NotificationTemplate
  unfolding apply_update
  update_template u p id w = elim (require_roles admins u) [
    | err e ↦ (err e, w)
    | ok _ ↦ elim (get_template_row id w.db.templates) [
      | none ↦ (err (http_exception 404), w)
      | some t ↦
          if not (has_updates p)
          then (ok t, w)
          else (let db = w.db in
              (
                ok (apply_update p t),
                record w {
                  db = record db {
                    templates =
                        map
                          (λ (s : NotificationTemplate). if s.id == id then apply_update p s else s)
                          db.templates;
                  };
                },
              ))
    ]
  ]

  unfoldable pub delete_template : CurrentUser → ℕ → Action r (Unit {0})
  delete_template u id w = elim (require_roles admins u) [
    | err e ↦ (err e, w)
    | ok _ ↦ elim (get_template_row id w.db.templates) [
      | none ↦ (err (http_exception 404), w)
      | some t ↦
          (let db = w.db in
            (
              ok tt,
              record w {
                db = record db {
                  templates = keep (λ (s : NotificationTemplate). not (s.id == id)) db.templates;
                };
              },
            ))
    ]
  ]

  unfoldable pub render_template :
      External → CurrentUser → ℕ → Json → Action r (Option String × String × ℕ)
  render_template x u id variables w = elim (require_roles analysts u) [
    | err e ↦ (err e, w)
    | ok _ ↦ elim (render_by_id x id variables w.db.templates) [
      | none ↦ (err (http_exception 404), w)
      | some result ↦ (ok result, w)
    ]
  ]
