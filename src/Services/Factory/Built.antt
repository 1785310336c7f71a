-- ===== src/Services/Factory/Built.antt =====
-- The rows that the factory adds: one for each channel that has a template or is skipped, and what each
-- row says.
use financial_notification_p.Prelude.{
  ℕ, ◌≡◌, ◌⊎◌, inl, inr, refl, sym, ap, ◌∙◌, String, true, false, Option, none, some, Bool-cases,
  Option-cases,
}
use financial_notification_p.Core.Constants.{
  FinancialEventType, NotificationChannel, NotificationStatus, NotificationPriority, SkipReason,
  channel_max_retries,
}
use financial_notification_p.Core.Exceptions.{Exn, ok, err, statement_error, integrity_error}
use financial_notification_p.Models.Rows.{Json, User, Notification}
use financial_notification_p.Models.World.{World, Action, pure, ◌>>=◌, >>=-err, >>=-ok}
use financial_notification_p.Redis.Server.{Redis}
use financial_notification_p.Repositories.Notifications.{key_taken}
use financial_notification_p.Services.External.{External}
use financial_notification_p.Services.Template.{Rendered, render}
use financial_notification_p.Services.Recipient.{
  is_channel_enabled, is_opted_out, get_recipient, filled,
}
use financial_notification_p.Services.EventArguments.{PriorityValue, member, raw}
use financial_notification_p.Services.NotificationRows.{skipped_row, rendered_row, ids_of, add_row}
use financial_notification_p.Services.Factory.{create_row, skip, build_rendered, build_single}

module _ (x : External) (user : User) (e : FinancialEventType) where
  -- What a row says about the user's wishes on its channel. A row is pending only where the channel is on,
  -- the event is not opted out of and there is a contact; any other row names the first of these that failed.
  abbrev pub Fits : NotificationChannel → Notification → Type 0
  Fits c n =
      ((n.status ≡ NotificationStatus.pending)
        × (is_channel_enabled c user.preferences ≡ true)
        × (is_opted_out e user.preferences ≡ false)
        × (filled (get_recipient x user c) ≡ some n.recipient)
        × (n.max_retries ≡ channel_max_retries c))
      ⊎ ((n.status ≡ NotificationStatus.skipped)
          × (n.skip_reason ≡ some SkipReason.channel_disabled)
          × (is_channel_enabled c user.preferences ≡ false))
      ⊎ ((n.status ≡ NotificationStatus.skipped)
          × (n.skip_reason ≡ some SkipReason.user_opt_out)
          × (is_channel_enabled c user.preferences ≡ true)
          × (is_opted_out e user.preferences ≡ true))
      ⊎ ((n.status ≡ NotificationStatus.skipped)
          × (n.skip_reason ≡ some SkipReason.invalid_contact)
          × (is_channel_enabled c user.preferences ≡ true)
          × (is_opted_out e user.preferences ≡ false)
          × (filled (get_recipient x user c) ≡ none))

module _ {r : Redis} (x : External) where
  abbrev pub fresh_id : World r → ℕ
  fresh_id w = x.new_uuid (ids_of w.db.notifications)

  abbrev with_row : Notification → World r → World r
  with_row n w = record w { db = add_row n w.db }

  -- Why the database refuses the row of a call: its priority is no member, or its key is taken.
  abbrev pub Refuses : PriorityValue → Option String → Exn → World r → Type 0
  Refuses p k b w =
      ((n : ℕ) × (p ≡ raw n) × (b ≡ statement_error))
      ⊎ ((key_taken k w.db.notifications ≡ true) × (b ≡ integrity_error))

  -- The insertion of a row with this key raises and leaves the world, or adds the row.
  create_row-cases :
      (p : PriorityValue) (k : Option String) (row : NotificationPriority → ℕ → ℕ → Notification)
      (w : World r)
      → ((q : NotificationPriority) (id now : ℕ) → (row q id now).idempotency_key ≡ k)
      → ((e : Exn) × (create_row x p row w ≡ (err e, w)) × Refuses p k e w)
        ⊎ ((q : NotificationPriority) × (create_row x p row w
              ≡ (ok (row q (fresh_id w) w.clock), with_row (row q (fresh_id w) w.clock) w)))
  unfolding create_row
  create_row-cases (raw q) k row w keyed = inl (statement_error, refl, inl (q, refl, refl))
  create_row-cases (member q) k row w keyed =
      elim (Bool-cases
        (key_taken (row q (fresh_id w) w.clock).idempotency_key w.db.notifications)) [
          | inl taken ↦
              let same = ap (λ i. key_taken i w.db.notifications) (keyed q (fresh_id w) w.clock) in
              inl (integrity_error, rw taken, inr (sym same ∙ taken, refl))
          | inr free ↦ inr (q, rw free)
        ]

  abbrev pub Added :
      PriorityValue
      → Option String
      → Action r (Option Notification)
      → (NotificationPriority → ℕ → ℕ → Notification)
      → World r
      → Type 0
  Added p k m row w =
      ((e : Exn) × (m w ≡ (err e, w)) × Refuses p k e w)
      ⊎ ((q : NotificationPriority) × (m w
            ≡ (ok (some (row q (fresh_id w) w.clock)), with_row (row q (fresh_id w) w.clock) w)))

  added :
      (p : PriorityValue) (k : Option String) (row : NotificationPriority → ℕ → ℕ → Notification)
      (w : World r)
      → ((q : NotificationPriority) (id now : ℕ) → (row q id now).idempotency_key ≡ k)
      → Added p k (create_row x p row >>= λ n. pure (some n)) row w
  added p k row w keyed = elim (create_row-cases p k row w keyed) [
    | inl (e, raised, why) ↦ inl (e, >>=-err (create_row x p row) (λ n. pure (some n)) raised, why)
    | inr (q, done) ↦ inr (q, >>=-ok (create_row x p row) (λ n. pure (some n)) done)
  ]

  module _ (user : User) (e : FinancialEventType) (c : NotificationChannel) (p : PriorityValue)
      (d : Json) (l : String) (k : Option String) where
    skip-Added :
        (reason : SkipReason) (w : World r)
        → Added p k (skip x user e c p d l k reason) (skipped_row x user e c d l k reason) w
    unfolding skip
    skip-Added reason w = added p k (skipped_row x user e c d l k reason) w (λ q id now. refl)

    build_rendered-Added :
        (to : String) (text : Rendered) (w : World r)
        → Added p k
            (build_rendered x user e c p d l k to text)
            (rendered_row x user e c d l k to text)
            w
    unfolding build_rendered
    build_rendered-Added to text w =
        added p k (rendered_row x user e c d l k to text) w (λ q id now. refl)

  -- What a call of `_build_single` that does not raise gives: nothing, or one row that fits.
  abbrev pub Single :
      User
      → FinancialEventType
      → NotificationChannel
      → World r
      → Option Notification
      → World r
      → Type 0
  Single user e c w none w' = w' ≡ w
  Single user e c w (some n) w' =
      (w' ≡ with_row n w)
      × (n.id ≡ fresh_id w)
      × (n.channel ≡ c)
      × (n.user_id ≡ user.id)
      × (n.event_type ≡ e)
      × Fits x user e c n

  -- A channel that is on, an event that is wanted and a contact that is there, but no template that
  -- can be rendered.
  abbrev pub Unrendered :
      User → FinancialEventType → NotificationChannel → Json → String → World r → Type 0
  Unrendered user e c d l w =
      (is_channel_enabled c user.preferences ≡ true)
      × (is_opted_out e user.preferences ≡ false)
      × ((to : String) × (filled (get_recipient x user c) ≡ some to))
      × (render x e c l d user w.db.templates ≡ none)

  -- Why a call gives nothing.
  abbrev pub Explains :
      User
      → FinancialEventType
      → NotificationChannel
      → Json
      → String
      → World r
      → Option Notification
      → Type 0
  Explains user e c d l w none = Unrendered user e c d l w
  Explains user e c d l w (some n) = Unit

  -- How a call ends: the database refuses its row, and it raises and leaves the world, or it gives what
  -- `Single` and `Explains` say.
  abbrev pub Ends :
      User
      → FinancialEventType
      → NotificationChannel
      → PriorityValue
      → Json
      → String
      → Option String
      → Action r (Option Notification)
      → World r
      → Type 0
  Ends user e c p d l k m w =
      ((b : Exn) × (m w ≡ (err b, w)) × Refuses p k b w)
      ⊎ ((o : Option Notification) × (w' : World r) × (m w ≡ (ok o, w'))
          × Single user e c w o w'
          × Explains user e c d l w o)

  module _ (user : User) (e : FinancialEventType) (c : NotificationChannel) (p : PriorityValue)
      (d : Json) (l : String) (k : Option String) (w : World r) where
    adds_row :
        (n : Notification)
        → build_single x user e c p d l k w ≡ (ok (some n), with_row n w)
        → n.id ≡ fresh_id w
        → n.channel ≡ c
        → n.user_id ≡ user.id
        → n.event_type ≡ e
        → Fits x user e c n
        → Ends user e c p d l k (build_single x user e c p d l k) w
    adds_row n done is_fresh of_channel of_user of_event fits =
        inr (some n, with_row n w, done, (refl, is_fresh, of_channel, of_user, of_event, fits), tt)

    skips :
        (reason : SkipReason)
        → build_single x user e c p d l k w ≡ skip x user e c p d l k reason w
        → ((q : NotificationPriority)
            → Fits x user e c (skipped_row x user e c d l k reason q (fresh_id w) w.clock))
        → Ends user e c p d l k (build_single x user e c p d l k) w
    skips reason calls fits = elim (skip-Added user e c p d l k reason w) [
      | inl (b, raised, why) ↦ inl (b, calls ∙ raised, why)
      | inr (q, done) ↦
          adds_row (skipped_row x user e c d l k reason q (fresh_id w) w.clock) (calls ∙ done) refl
            refl refl refl (fits q)
    ]

    -- A call of `_build_single` adds one row, with a new identifier, for this user, channel and event: pending, to a contact that
    -- is there, with the channel's retries, if the channel is on and the event not opted out of; and
    -- otherwise skipped, with the first reason that applies. It raises only where the priority is no member
    -- or the key is taken, and gives nothing only where all else fits and no template can be rendered; in
    -- both cases the world stays as it was.
    pub build_single-Ends : Ends user e c p d l k (build_single x user e c p d l k) w
    unfolding build_single
    build_single-Ends = elim (Bool-cases (is_channel_enabled c user.preferences)) [
      | inr off ↦ skips SkipReason.channel_disabled (rw off) (λ q. inr (inl (refl, refl, off)))
      | inl on ↦ elim (Bool-cases (is_opted_out e user.preferences)) [
        | inl opted ↦
            skips SkipReason.user_opt_out (rw (on, opted))
              (λ q. inr (inr (inl (refl, refl, on, opted))))
        | inr wanted ↦ elim (Option-cases (filled (get_recipient x user c))) [
          | inl nowhere ↦
              skips SkipReason.invalid_contact (rw (on, wanted, nowhere))
                (λ q. inr (inr (inr (refl, refl, on, wanted, nowhere))))
          | inr (to, there) ↦ elim (Option-cases (render x e c l d user w.db.templates)) [
            | inl unrendered ↦ inr (
              none,
              w,
              rw (on, wanted, there, unrendered),
              refl,
              (on, wanted, (to, there), unrendered),
            )
            | inr (text, rendered) ↦ elim (build_rendered-Added user e c p d l k to text w) [
              | inl (b, raised, why) ↦ inl (b, rw (on, wanted, there, rendered) raised, why)
              | inr (q, done) ↦
                  adds_row (rendered_row x user e c d l k to text q (fresh_id w) w.clock)
                    (rw (on, wanted, there, rendered) done) refl refl refl refl
                    (inl (refl, on, wanted, there, refl))
            ]
          ]
        ]
      ]
    ]
