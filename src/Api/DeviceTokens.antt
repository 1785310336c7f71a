-- ===== src/Api/DeviceTokens.antt =====
-- app/api/v1/endpoints/device_tokens.py.
use financial_notification_p.Prelude.{
  ℕ, String, Bool, true, false, not, ◌&&◌, Option, none, some, List, [], ◌∷◌, ◌++◌, keep, find, map,
  ◌==◌, truthy, str_eq, if◌then◌else◌,
}
use financial_notification_p.Core.Exceptions.{
  Result, ok, err, http_exception, multiple_results_found,
}
use financial_notification_p.Models.Rows.{User, DeviceToken}
use financial_notification_p.Models.World.{Db, World, Action}
use financial_notification_p.Redis.Server.{Redis}
use financial_notification_p.Services.Auth.{CurrentUser, update_user}
use financial_notification_p.Services.External.{External}
pub mod Push

pub record DeviceTokenCreate : Type 0 where
  pub token : String
  pub platform : String
  pub device_id : Option String
  pub device_name : Option String

abbrev pub new_device : ℕ → ℕ → DeviceTokenCreate → DeviceToken
new_device id user_id p = record {
  id = id;
  user_id = user_id;
  token = p.token;
  platform = p.platform;
  device_id = p.device_id;
  device_name = p.device_name;
  is_active = true;
  last_used_at = none;
}

abbrev pub named_or : Option String → Option String → Option String
named_or none old = old
named_or (some name) old = if truthy name then some name else old

-- A token that comes again: its row is active, used now, and renamed where there is a name.
unfoldable pub reactivate : ℕ → DeviceTokenCreate → DeviceToken → DeviceToken
reactivate now p t = record t {
  is_active = true;
  last_used_at = some now;
  device_name = named_or p.device_name t.device_name;
}

abbrev pub is_same_token : ℕ → String → DeviceToken → Bool
is_same_token user_id token t = t.user_id == user_id && str_eq t.token token

abbrev pub update_device : ℕ → (DeviceToken → DeviceToken) → Db → Db
update_device id f db = record db {
  device_tokens = map (λ (t : DeviceToken). if t.id == id then f t else t) db.device_tokens;
}

abbrev pub device_ids : List DeviceToken → List ℕ
device_ids = map (λ (t : DeviceToken). t.id)

-- a token that is new to its user, which also becomes the one that push notifications go to
unfoldable pub add_device : ℕ → ℕ → DeviceTokenCreate → Db → Db
add_device id user_id p db =
    let with_device = record db {
      device_tokens = db.device_tokens ++ new_device id user_id p ∷ [];
    } in
    update_user user_id (λ v. record v { firebase_token = some p.token }) with_device

module _ {r : Redis} where
  unfoldable pub register_device_token :
      External → CurrentUser → DeviceTokenCreate → Action r DeviceToken
  unfolding reactivate add_device
  register_device_token x u p w = elim (keep (is_same_token u.user_id p.token) w.db.device_tokens) [
    | [] ↦
        let id = x.new_uuid (device_ids w.db.device_tokens) in
        (ok (new_device id u.user_id p), record w { db = add_device id u.user_id p w.db })
    | t ∷ [] ↦ (
      ok (reactivate w.clock p t),
      record w { db = update_device t.id (reactivate w.clock p) w.db },
    )
    | _ ↦ (err multiple_results_found, w)
  ]

  unfoldable pub deactivate_device_token : CurrentUser → ℕ → Action r (Unit {0})
  deactivate_device_token u id w =
      elim (find (λ (t : DeviceToken). t.id == id && t.user_id == u.user_id) w.db.device_tokens) [
        | none ↦ (err (http_exception 404), w)
        | some t ↦ (
          ok tt,
          record w {
            db = update_device id (λ (v : DeviceToken). record v { is_active = false }) w.db;
          },
        )
      ]
