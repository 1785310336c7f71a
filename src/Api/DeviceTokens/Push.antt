-- ===== src/Api/DeviceTokens/Push.antt =====
-- Where push notifications go after a device was given up.
use financial_notification_p.Prelude.{
  ℕ, ◌≡◌, ◌∙◌, refl, sym, ap, subst, false, ◌&&◌, none, some, List, [], ◌∷◌, keep, find,
  find-append, any, ◌==◌, arith,
}
use mathlib.Core.Option
use financial_notification_p.Core.Constants.{push}
use financial_notification_p.Core.Exceptions.{Result, ok}
use financial_notification_p.Models.Rows.{User, DeviceToken}
use financial_notification_p.Models.World.{World}
use financial_notification_p.Redis.Server.{Redis}
use financial_notification_p.Repositories.Users.{get_user}
use financial_notification_p.Repositories.Users.Updates.{get_user-update}
use financial_notification_p.Services.Auth.{CurrentUser}
use financial_notification_p.Services.External.{External, IsFreshUuid}
use financial_notification_p.Services.Recipient.{get_recipient}
use financial_notification_p.Api.DeviceTokens.{
  DeviceTokenCreate, new_device, device_ids, is_same_token, add_device, register_device_token,
  deactivate_device_token,
}

find-fresh :
    (id user_id : ℕ) (ts : List DeviceToken)
    → any (λ i. i == id) (device_ids ts) ≡ false
    → find (λ (t : DeviceToken). t.id == id && t.user_id == user_id) ts ≡ none
find-fresh id user_id [] fresh = refl
find-fresh id user_id (t ∷ ts) fresh = ground (arith, find-fresh id user_id ts)

module _ {r : Redis} (x : External) (u : CurrentUser) (p : DeviceTokenCreate) (w : World r) where
  -- The token's row, and its identifier.
  abbrev pub new_id : ℕ
  new_id = x.new_uuid (device_ids w.db.device_tokens)

  registered :
      keep (is_same_token u.user_id p.token) w.db.device_tokens ≡ []
      → register_device_token x u p w
        ≡ (ok (new_device new_id u.user_id p), record w { db = add_device new_id u.user_id p w.db })
  unfolding register_device_token
  registered first = rw (first, register_device_token) refl

  given_up :
      (v : User)
      → IsFreshUuid x
      → get_user u.user_id w.db.users ≡ some v
      → (let w1 = record w { db = add_device new_id u.user_id p w.db } in
          let (taken, w2) = deactivate_device_token u new_id w1 in
          (ok (new_device new_id u.user_id p) ≡ ok (new_device new_id u.user_id p))
          × (taken ≡ ok tt)
          × ((v' : User) × (get_user u.user_id w2.db.users ≡ some v')
              × (get_recipient x v' push ≡ some p.token)))
  unfolding deactivate_device_token add_device get_recipient
  given_up v fresh found =
      let device =
        find-append (λ (t : DeviceToken). t.id == new_id && t.user_id == u.user_id)
          (new_device new_id u.user_id p) w.db.device_tokens
          (find-fresh new_id u.user_id w.db.device_tokens (fresh (device_ids w.db.device_tokens)))
          (ground arith) in
      let kept =
        get_user-update u.user_id (λ v. record v { firebase_token = some p.token }) w.db.users
          (λ v. refl)
        ∙ ap (Option.map (λ (v : User). record v { firebase_token = some p.token })) found in
      rw (device, deactivate_device_token)
        (refl, refl, (record v { firebase_token = some p.token }, kept, refl))

  -- For identifiers that are new: a user who registers a device's token for the first time, and gives
  -- it up right after, succeeds at both, and push notifications to the user go to that token all the
  -- same.
  deactivate-still_pushed :
      (v : User)
      → IsFreshUuid x
      → get_user u.user_id w.db.users ≡ some v
      → keep (is_same_token u.user_id p.token) w.db.device_tokens ≡ []
      → (let (given, w1) = register_device_token x u p w in
          let (taken, w2) = deactivate_device_token u new_id w1 in
          (given ≡ ok (new_device new_id u.user_id p))
          × (taken ≡ ok tt)
          × ((v' : User) × (get_user u.user_id w2.db.users ≡ some v')
              × (get_recipient x v' push ≡ some p.token)))
  unfolding deactivate_device_token get_recipient
  deactivate-still_pushed v fresh found first =
      let w1 : World r = record w { db = add_device new_id u.user_id p w.db } in
      let done = registered first in
      subst
        (λ (q : Result DeviceToken × World r).
          (let (taken, w2) = deactivate_device_token u new_id q.1 in
            (q.0 ≡ ok (new_device new_id u.user_id p))
            × (taken ≡ ok tt)
            × ((v' : User) × (get_user u.user_id w2.db.users ≡ some v')
                × (get_recipient x v' push ≡ some p.token))))
        (sym done) (given_up v fresh found)
