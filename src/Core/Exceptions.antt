-- ===== src/Core/Exceptions.antt =====
-- The exceptions that the modelled code raises: those of app/core/exceptions.py, Python's own, the
-- database's, and FastAPI's `HTTPException` by its status code. Messages are left out.
use financial_notification_p.Prelude.{ℕ, Bool}

pub data Exn : Type 0 where
  not_found_error conflict_error authentication_error : Exn
  frequency_cap_exceeded dnd_registered_error quiet_hours_error : Exn
  kafka_publish_error configuration_error : Exn
  value_error key_error attribute_error index_error zero_division_error unknown_time_zone_error :
      Exn
  integrity_error statement_error connection_error multiple_results_found : Exn
  http_exception : ℕ → Exn

pub data Result {ℓ} (A : Type ℓ) : Type ℓ where
  ok : A → Result A
  err : Exn → Result A

-- The calls of one `try` body in their order: the first exception ends it.
infixl 5 ◌>>=◌ ◌>>◌
abbrev pub ◌>>=◌ {ℓ κ} :
    {A : Type ℓ} {B : Type κ} (before : Result A) (next : A → Result B) → Result B
before >>= next = elim before [ ok a ↦ next a | err raised ↦ err raised ]

abbrev pub ◌>>◌ {ℓ} : {B : Type ℓ} → Result (Unit {0}) → Result B → Result B
before >> next = before >>= λ done. next

-- `if c: raise e`
abbrev pub raise_if : Bool → Exn → Result (Unit {0})
raise_if Bool.true e = err e
raise_if Bool.false e = ok tt
