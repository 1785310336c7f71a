-- ===== src/Services/External.antt =====
-- What the services call and this repository does not implement, as parameters: UUIDs, time zones,
-- the TRAI registry, and Jinja2.
use financial_notification_p.Prelude.{ℕ, String, Bool, false, Option, List, ◌≡◌, any, ◌==◌}
use financial_notification_p.Models.Rows.{Json}

pub record External : Type 0 where
  -- `str(uuid)`, and `UUID(text)` with `none` for its `ValueError`
  pub uuid_text : ℕ → String
  pub parse_uuid : String → Option ℕ
  -- `uuid4()`, given the identifiers in use
  pub new_uuid : List ℕ → ℕ
  -- `datetime.now(pytz.timezone(tz)).hour` at an instant; `none` for an unknown zone
  pub local_hour : String → ℕ → Option ℕ
  -- the registry's reply at an instant: the status code and the field `is_dnd`; `none` when the call
  -- or the reading of its reply raises
  pub dnd_api : ℕ → String → Option (ℕ × Option Bool)
  -- `from_string(text).render(**context)`; `none` when it raises
  pub render : String → Json → Option String

-- A new UUID is none of those in use.
abbrev pub IsFreshUuid : External → Type 0
IsFreshUuid x = (ids : List ℕ) → any (λ i. i == x.new_uuid ids) ids ≡ false
