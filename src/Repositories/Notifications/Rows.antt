-- ===== src/Repositories/Notifications/Rows.antt =====
-- What an update by primary key does to the rows that a read by primary key finds.
use mathlib.Core.Option
use financial_notification_p.Prelude.{ℕ, ◌≡◌, ◌≢◌, refl, some, List, [], ◌∷◌, arith, ap, ◌∙◌}
use financial_notification_p.Core.Constants.{NotificationStatus}
use financial_notification_p.Models.Rows.{Notification}
use financial_notification_p.Repositories.Notifications.{get, update_where_id, update_status}

-- An update that leaves the primary key as it was.
abbrev pub KeepsId : (Notification → Notification) → Type 0
KeepsId f = (n : Notification) → (f n).id ≡ n.id

pub get-update_self :
    (id : ℕ) (f : Notification → Notification) (ns : List Notification)
    → KeepsId f
    → get id (update_where_id id f ns) ≡ Option.map f (get id ns)
unfolding update_where_id
get-update_self id f [] k = refl
get-update_self id f (n ∷ ns) k = ground (arith, k n, get-update_self id f ns k)

pub get-update_ne :
    (id j : ℕ) (f : Notification → Notification) (ns : List Notification)
    → KeepsId f
    → j ≢ id
    → get j (update_where_id id f ns) ≡ get j ns
unfolding update_where_id
get-update_ne id j f [] k ne = refl
get-update_ne id j f (n ∷ ns) k ne = ground (arith, k n, get-update_ne id j f ns k ne)

pub get-status_self :
    (id : ℕ) (s : NotificationStatus) (f : Notification → Notification) (ns : List Notification)
    (n : Notification)
    → KeepsId f
    → get id ns ≡ some n
    → get id (update_status id s f ns) ≡ some (let m = f n in record m { status = s })
unfolding update_status
get-status_self id s f ns n k found =
    get-update_self id (λ n. let m = f n in record m { status = s }) ns k
    ∙ ap (Option.map (λ n. let m = f n in record m { status = s })) found

pub get-status_ne :
    (id j : ℕ) (s : NotificationStatus) (f : Notification → Notification) (ns : List Notification)
    → KeepsId f
    → j ≢ id
    → get j (update_status id s f ns) ≡ get j ns
unfolding update_status
get-status_ne id j s f ns k ne =
    get-update_ne id j (λ n. let m = f n in record m { status = s }) ns k ne
