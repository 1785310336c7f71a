-- ===== src/Api/Templates/Creation.antt =====
-- When a template can be created.
use financial_notification_p.Prelude.{
  ℕ, ◌≡◌, refl, ap, sym, subst, String, true, false, ◌&&◌, none, some, List, [], ◌∷◌, ◌++◌,
  find-append, str_eq, eq_refl, inl, inr, Option-cases, arith,
}
use financial_notification_p.Core.Constants.{
  event_eq, channel_eq, FinancialEventType, NotificationChannel,
}
use financial_notification_p.Core.Exceptions.{Result, ok, err, http_exception}
use financial_notification_p.Models.Rows.{NotificationTemplate}
use financial_notification_p.Models.World.{World}
use financial_notification_p.Redis.Server.{Redis}
use financial_notification_p.Repositories.Templates.{find_template, get_by_event_channel_locale}
use financial_notification_p.Services.Auth.{CurrentUser, require_roles, admins}
use financial_notification_p.Services.External.{External}
use financial_notification_p.Api.Templates.{
  TemplateCreate, new_template, ids, key_taken, create_template,
}

not_found :
    (e : FinancialEventType) (c : NotificationChannel) (locale : String)
    (ts : List NotificationTemplate)
    → get_by_event_channel_locale e c locale ts ≡ none
    → find_template e c locale ts ≡ none
unfolding get_by_event_channel_locale
not_found e c locale ts missing = elim (Option-cases (find_template e c locale ts)) [
  | inl absent ↦ absent
  | inr (t, found) ↦ absurd (cc (rw (found, get_by_event_channel_locale) at missing))
]

-- A new template is found by its own event, channel and language.
answers_for_itself :
    (id : ℕ) (p : TemplateCreate)
    → (let t = new_template id p in
        (event_eq t.event_type p.event_type
          && (channel_eq t.channel p.channel && (str_eq t.locale p.locale && t.is_active)))
        ≡ true)
answers_for_itself id p = simp (eq_refl)

get_by_event_channel_locale-append :
    (id : ℕ) (p : TemplateCreate) (ts : List NotificationTemplate)
    → get_by_event_channel_locale p.event_type p.channel p.locale ts ≡ none
    → get_by_event_channel_locale p.event_type p.channel p.locale (ts ++ new_template id p ∷ [])
      ≡ some (new_template id p)
unfolding get_by_event_channel_locale
get_by_event_channel_locale-append id p ts missing =
    let found =
      find-append
        (λ (t : NotificationTemplate).
          event_eq t.event_type p.event_type
          && (channel_eq t.channel p.channel && (str_eq t.locale p.locale && t.is_active)))
        (new_template id p) ts (not_found p.event_type p.channel p.locale ts missing)
        (answers_for_itself id p) in
    rw (found, get_by_event_channel_locale) refl

module _ {r : Redis} (x : External) (u : CurrentUser) (p : TemplateCreate) (w : World r) where
  -- An administrator's template for another language than English is refused wherever an active English
  -- one for the event and the channel is there, whether or not the language has one of its own; so no
  -- translation can be added to it.
  pub create_template-blocked :
      (t : NotificationTemplate)
      → require_roles admins u ≡ ok u
      → str_eq p.locale "en" ≡ false
      → find_template p.event_type p.channel "en" w.db.templates ≡ some t
      → create_template x u p w ≡ (err (http_exception 409), w)
  unfolding create_template get_by_event_channel_locale
  create_template-blocked t allowed foreign english =
      elim (Option-cases (find_template p.event_type p.channel p.locale w.db.templates)) [
        | inl missing ↦ ground arith
        | inr (own, found) ↦ ground arith
      ]

  -- With no template that the look-up for its event, channel and language finds, and none that has
  -- the three as its key, an administrator's template is stored, and that look-up finds it.
  pub create_template-found :
      require_roles admins u ≡ ok u
      → get_by_event_channel_locale p.event_type p.channel p.locale w.db.templates ≡ none
      → key_taken p w.db.templates ≡ false
      → (let t = new_template (x.new_uuid (ids w.db.templates)) p in
          let (result, w') = create_template x u p w in
          (result ≡ ok t)
          × (get_by_event_channel_locale p.event_type p.channel p.locale w'.db.templates ≡ some t))
  unfolding create_template
  create_template-found allowed missing free =
      let t = new_template (x.new_uuid (ids w.db.templates)) p in
      let done : create_template x u p w ≡ (
        ok t,
        (let db = w.db in record w { db = record db { templates = db.templates ++ t ∷ [] } }),
      ) =
        rw (allowed, create_template)
          (rw (missing, create_template) (rw (free, create_template) refl)) in
      (
        ap (λ (q : Result NotificationTemplate × World r). q.0) done,
        subst
            (λ (v : World r).
              get_by_event_channel_locale p.event_type p.channel p.locale v.db.templates ≡ some t)
            (sym (ap (λ (q : Result NotificationTemplate × World r). q.1) done))
            (get_by_event_channel_locale-append (x.new_uuid (ids w.db.templates)) p w.db.templates
              missing),
      )
