-- ===== src/Api/Preferences/OptOuts.antt =====
-- What an update of the opt-outs means to the factory.
use financial_notification_p.Prelude.{ℕ, ◌≡◌, refl, ap, subst, sym, ◌∙◌, some, List, [], ◌∷◌, All}
use mathlib.Core.Option
use financial_notification_p.Core.Constants.{FinancialEventType, event_value}
use financial_notification_p.Core.Exceptions.{ok}
use financial_notification_p.Models.Rows.{User}
use financial_notification_p.Models.Preference.{UserPreference, codes, mem, get_disabled_events}
use financial_notification_p.Models.Preference.OptOut.{
  IsWord, disabled_events-join, event_value-IsWord,
}
use financial_notification_p.Models.World.{World}
use financial_notification_p.Redis.Server.{Redis}
use financial_notification_p.Repositories.Users.{get_user}
use financial_notification_p.Repositories.Users.Updates.{get_user-update}
use financial_notification_p.Services.Recipient.{is_opted_out}
use financial_notification_p.Services.Auth.{CurrentUser}
use financial_notification_p.Api.Preferences.{
  UserPreferenceUpdate, event_codes, write_opt_outs, apply_update, resolve_target, ensured,
  with_ensured, update_preferences,
}

event_codes-IsWord : (es : List FinancialEventType) → All IsWord (event_codes es)
event_codes-IsWord [] = tt
event_codes-IsWord (e ∷ es) = (event_value-IsWord e, event_codes-IsWord es)

apply_update-opt_outs :
    (u : UserPreferenceUpdate) (p : UserPreference) (es : List FinancialEventType)
    (e : FinancialEventType)
    → u.disabled_event_types ≡ some es
    → is_opted_out e (some (apply_update u p)) ≡ mem (codes (event_value e)) (event_codes es)
unfolding apply_update is_opted_out
apply_update-opt_outs u p es e given =
    subst
      (λ d.
        mem (codes (event_value e)) (
          get_disabled_events (
            let q = apply_update u p in
            record q { disabled_event_types = write_opt_outs d p.disabled_event_types }))
        ≡ mem (codes (event_value e)) (event_codes es))
      (sym given)
      (ap (mem (codes (event_value e)))
        (disabled_events-join (event_codes es) (apply_update u p) (event_codes-IsWord es)))

module _ {r : Redis} where
  -- A permitted update of a user's opt-outs succeeds, the user's row has the preferences that it answers
  -- with, and for every event type the factory takes the user to have opted out of it exactly when its
  -- text is one of those of the given list.
  pub update_preferences-opt_outs :
      (u : CurrentUser) (payload : UserPreferenceUpdate) (id : ℕ) (w : World r) (v : User)
      (es : List FinancialEventType)
      → resolve_target id u ≡ ok id
      → get_user id w.db.users ≡ some v
      → payload.disabled_event_types ≡ some es
      → (let (result, w') = update_preferences u payload id w in
          let p = apply_update payload (ensured v) in
          (result ≡ ok p)
          × (get_user id w'.db.users ≡ some (record v { preferences = some p }))
          × ((e : FinancialEventType)
              → is_opted_out e (some p) ≡ mem (codes (event_value e)) (event_codes es)))
  unfolding update_preferences with_ensured
  update_preferences-opt_outs u payload id w v es allowed found given =
      let p = apply_update payload (ensured v) in
      let f : User → User = λ x. record x { preferences = some p } in
      rw (allowed, update_preferences)
        (rw (found, with_ensured)
          (
            refl,
            get_user-update id f w.db.users (λ x. refl) ∙ ap (Option.map f) found,
            λ e. apply_update-opt_outs payload (ensured v) es e given,
          ))
