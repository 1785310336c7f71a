-- ===== src/Kafka/Handlers/Owed.antt =====
-- Building notifications: every pending row that it adds is one that their dispatches settle.
use financial_notification_p.Prelude.{
  ℕ, ◌≡◌, sym, subst, String, Bool, true, false, ◌||◌, Option, none, some, List, [], ◌∷◌,
  All-append, arith, inl, inr, not, ◌==◌, if◌then◌else◌,
}
use financial_notification_p.Core.Constants.{
  FinancialEventType, NotificationChannel, NotificationStatus, status_eq,
}
use financial_notification_p.Core.Exceptions.{Result, ok, err}
use financial_notification_p.Models.Rows.{Json, User, Notification}
use financial_notification_p.Models.World.{World, Action, pure, lift, ◌>>=◌, >>=-err, >>=-ok}
use financial_notification_p.Redis.Server.{Redis}
use financial_notification_p.Repositories.Users.{get_user}
use financial_notification_p.Services.External.{External}
use financial_notification_p.Services.EventArguments.{
  PriorityArg, PriorityValue, channel_key, read_priority, read_event, read_channels, user_locale,
  target_channels,
}
use financial_notification_p.Services.Factory.{
  build_single, build_each, build_for, build_notifications, with_built,
}
use financial_notification_p.Services.Factory.Built.{Single, build_single-Ends}
use financial_notification_p.Services.Dispatcher.Settles.{PendingIn, PendingIn-mono, to_settle}

-- The identifiers that the dispatches of a list have to settle.
unfoldable pub owed : List Notification → ℕ → Bool
owed [] i = false
owed (n ∷ ns) i = to_settle n i || owed ns i

-- A call that gives built notifications leaves pending rows of the set and rows that the
-- notifications' dispatches settle.
abbrev pub Owes : {r : Redis} → (ℕ → Bool) → Result (List Notification) × World r → Type 0
Owes {r = r} c (ok ns, w) = PendingIn (λ i. c i || owed ns i) w.db.notifications
Owes {r = r} c (err e, w) = Unit

abbrev pub Within : {r : Redis} → (ℕ → Bool) → Result (Unit {0}) × World r → Type 0
Within c (ok _, w) = PendingIn c w.db.notifications
Within c (err e, w) = Unit

to_settle_self :
    (n : Notification) → n.status ≡ NotificationStatus.pending → to_settle n n.id ≡ true
to_settle_self n e =
    subst (λ s. (if status_eq s NotificationStatus.skipped then false else n.id == n.id) ≡ true)
      (sym e) (ground arith)

module _ {r : Redis} (x : External) where
  Single-PendingIn :
      (c : ℕ → Bool) (u : User) (e : FinancialEventType) (ch : NotificationChannel) (w w' : World r)
      (o : Option Notification)
      → Single x u e ch w o w'
      → PendingIn c w.db.notifications
      → PendingIn (λ i. c i || owed (with_built o []) i) w'.db.notifications
  unfolding owed
  Single-PendingIn c u e ch w w' none s p =
      subst (λ (v : World r). PendingIn (λ i. c i || false) v.db.notifications) (sym s)
        (PendingIn-mono c (λ i. c i || false) w.db.notifications (λ i h. ground arith) p)
  Single-PendingIn c u e ch w w' (some n) s p =
      subst (λ (v : World r). PendingIn (λ i. c i || (to_settle n i || false)) v.db.notifications)
        (sym s.0)
        (All-append
          (λ (m : Notification).
            m.status ≡ NotificationStatus.pending → (c m.id || (to_settle n m.id || false)) ≡ true)
          w.db.notifications (n ∷ [])
          (PendingIn-mono c (λ i. c i || (to_settle n i || false)) w.db.notifications
            (λ i h. ground arith) p)
          (λ e. ground (arith, to_settle_self n e), tt))

  joins :
      (c : ℕ → Bool) (o : Option Notification) (k : Result (List Notification) × World r)
      → Owes {r = r} (λ i. c i || owed (with_built o []) i) k
      → Owes {r = r} c (elim k.0 [ ok rest ↦ (ok (with_built o rest), k.1) | err e ↦ (err e, k.1) ])
  unfolding owed
  joins c none (ok rest, w) q =
      PendingIn-mono (λ i. (c i || false) || owed rest i) (λ i. c i || owed rest i)
        w.db.notifications (λ i h. ground arith) q
  joins c (some n) (ok rest, w) q =
      PendingIn-mono (λ i. (c i || (to_settle n i || false)) || owed rest i)
        (λ i. c i || (to_settle n i || owed rest i)) w.db.notifications (λ i h. ground arith) q
  joins c o (err e, w) q = tt

  module _ (u : User) (e : FinancialEventType) (p : PriorityValue) (d : Json) (l : String)
      (k : Option String) where
    build_each-Owes :
        (c : ℕ → Bool) (cs : List NotificationChannel) (w : World r)
        → PendingIn c w.db.notifications
        → Owes {r = r} c (build_each x u e p d l k cs w)
    unfolding build_each owed
    build_each-Owes c [] w q =
        PendingIn-mono c (λ i. c i || false) w.db.notifications (λ i h. ground arith) q
    build_each-Owes c (ch ∷ cs) w q =
        let build : Action r (Option Notification) =
          build_single x u e ch p d l (channel_key k ch) in
        let next : Option Notification → Action r (List Notification) =
          λ o. build_each x u e p d l k cs >>= λ rest. pure (with_built o rest) in
        elim (build_single-Ends x u e ch p d l (channel_key k ch) w) [
          | inl (b, raised, _) ↦
              subst (Owes {r = r} c) (sym (>>=-err build next {w = w} {w' = w} raised)) tt
          | inr (o, w1, done, single, _) ↦
              subst (Owes {r = r} c) (sym (>>=-ok build next {w = w} {w' = w1} done)) (
                joins c o (build_each x u e p d l k cs w1) (
                  build_each-Owes (λ i. c i || owed (with_built o []) i) cs w1
                    (Single-PendingIn c u e ch w w1 o single q)))
        ]

  module _ (c : ℕ → Bool) where
    build_for-Owes :
        (u : User) (e : String) (p : PriorityArg) (cs : List String) (d : Json)
        (l k : Option String) (w : World r)
        → PendingIn c w.db.notifications
        → Owes {r = r} c (build_for x u e p cs d l k w)
    unfolding build_for
    build_for-Owes u e p cs d l k w q = go (read_priority p) (read_event e) (read_channels cs)
      where
        go :
            (a : Result PriorityValue) (b : Result FinancialEventType)
            (v : Result (List NotificationChannel))
            → Owes {r = r} c (
                (lift a >>= λ pe. lift b >>= λ ee.
                lift v >>= λ vs. build_each x u ee pe d (user_locale l u) k (target_channels vs pe))
                  w)
        go (err _) b v = tt
        go (ok pe) (err _) v = tt
        go (ok pe) (ok ee) (err _) = tt
        go (ok pe) (ok ee) (ok vs) =
            build_each-Owes u ee pe d (user_locale l u) k c (target_channels vs pe) w q

    pub build_notifications-Owes :
        (i : ℕ) (e : String) (p : PriorityArg) (cs : List String) (d : Json) (l k : Option String)
        (w : World r)
        → PendingIn c w.db.notifications
        → Owes {r = r} c (build_notifications x i e p cs d l k w)
    unfolding build_notifications owed
    build_notifications-Owes i e p cs d l k w q =
        let same : PendingIn (λ j. c j || false) w.db.notifications =
          PendingIn-mono c (λ j. c j || false) w.db.notifications (λ j h. ground arith) q in
        go same (get_user i w.db.users) (λ u. build_for-Owes u e p cs d l k w q)
      where
        go :
            PendingIn (λ j. c j || false) w.db.notifications
            → (o : Option User) → ((u : User) → Owes {r = r} c (build_for x u e p cs d l k w))
            → Owes {r = r} c (elim o [
              | none ↦ pure [] w
              | some u ↦ if not u.is_active then pure [] w else build_for x u e p cs d l k w
            ])
        go same none f = same
        go same (some u) f = either u.is_active
          where
            either :
                (active : Bool)
                → Owes {r = r} c (if not active then pure [] w else build_for x u e p cs d l k w)
            either true = f u
            either false = same
