-- ===== src/Models/World.antt =====
-- The state that the services share: the database, the Redis server, what has been put on the
-- Celery queues, and the clock. A service call is an action over it: what was
-- written stays written after an exception, and only a handler's rollback restores the database.
use financial_notification_p.Prelude.{◌≡◌, ap, ℕ, List, [], ◌∷◌, ◌++◌}
use financial_notification_p.Core.Exceptions.{Exn, Result, ok, err}
use financial_notification_p.Models.Rows.{
  User, Notification, NotificationTemplate, DeliveryLog, DeadLetterQueue, DeviceToken,
  NotificationStateLog,
}
use financial_notification_p.Redis.Server.{Redis}

pub record Db : Type 0 where
  pub users : List User
  pub notifications : List Notification
  pub templates : List NotificationTemplate
  pub delivery_logs : List DeliveryLog
  pub dead_letters : List DeadLetterQueue
  pub device_tokens : List DeviceToken
  pub state_logs : List NotificationStateLog

-- The Celery tasks that are put on a queue; a retry has its countdown in seconds.
pub data Task : Type 0 where
  send_notification_task : ℕ → Task
  retry_notification_task : ℕ → ℕ → Task

pub record World (r : Redis) : Type 0 where
  pub db : Db
  pub redis : r.Store
  pub tasks : List Task
  pub clock : ℕ

module _ {r : Redis} {A : Type 0} where
  abbrev pub pure : A → World r → Result A × World r
  pure a w = (ok a, w)

  abbrev pub raise : Exn → World r → Result A × World r
  raise e w = (err e, w)

abbrev pub Action : Redis → Type 0 → Type 0
Action r A = World r → Result A × World r

infixl 5 ◌>>=◌ ◌>>◌
abbrev pub ◌>>=◌ : {r : Redis} {A B : Type 0} → Action r A → (A → Action r B) → Action r B
◌>>=◌ m f w = let (x, w') = m w in elim x [ ok a ↦ f a w' | err e ↦ (err e, w') ]

abbrev pub ◌>>◌ : {r : Redis} {A B : Type 0} → Action r A → Action r B → Action r B
m >> k = m >>= λ _. k

module _ {r : Redis} where
  abbrev pub get_db : Action r Db
  get_db w = (ok w.db, w)

  abbrev pub get_clock : Action r ℕ
  get_clock w = (ok w.clock, w)

  abbrev pub modify_db : (Db → Db) → Action r (Unit {0})
  modify_db f w = (ok tt, record w { db = f w.db })

  -- A call that works on the Redis store alone.
  abbrev pub on_redis : {A : Type 0} → (ℕ → r.Store → Result A × r.Store) → Action r A
  on_redis f w = let (x, s) = f w.clock w.redis in (x, record w { redis = s })

  abbrev pub lift : {A : Type 0} → Result A → Action r A
  lift x w = (x, w)

  -- `task.apply_async(...)`
  abbrev pub apply_async : Task → Action r (Unit {0})
  apply_async t w = (ok tt, record w { tasks = w.tasks ++ t ∷ [] })

module _ {r : Redis} {A B : Type 0} (m : Action r A) (f : A → Action r B) where
  pub >>=-err : {w w' : World r} {e : Exn} → m w ≡ (err e, w') → (m >>= f) w ≡ (err e, w')
  >>=-err q = ap (λ k. elim k.0 [ ok a ↦ f a k.1 | err b ↦ (err b, k.1) ]) q

  pub >>=-ok : {w w' : World r} {a : A} → m w ≡ (ok a, w') → (m >>= f) w ≡ f a w'
  >>=-ok q = ap (λ k. elim k.0 [ ok a ↦ f a k.1 | err b ↦ (err b, k.1) ]) q
