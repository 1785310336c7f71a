-- ===== src/Services/Analytics/Totals.antt =====
-- The totals of the daily aggregates against the rows that they are made of.
use financial_notification_p.Prelude.{
  ℕ, ◌≡◌, ◌+◌, refl, sym, ap, subst, ◌∙◌, Bool, true, ◌&&◌, Option, none, some, List, [], ◌∷◌,
  arith, if◌then◌else◌, Bool-cases, inl, inr,
}
use financial_notification_p.Core.Constants.{
  FinancialEventType, NotificationChannel, NotificationStatus, SkipReason, event_eq, channel_eq,
  event_eq_sound, channel_eq_sound,
}
use financial_notification_p.Services.Analytics.{
  CountRow, Aggregate, new_aggregate, count_skip, count_status, has_key, add_count, aggregates,
}

-- Which statuses and reasons a column counts.
abbrev pub Kind : Type 0
Kind = NotificationStatus → Option SkipReason → Bool

-- Whether a row has the event type and the channel.
abbrev pub row_has_key : FinancialEventType → NotificationChannel → CountRow → Bool
row_has_key e c row = event_eq row.event_type e && channel_eq row.channel c

-- What the rows of a kind and a key count.
abbrev pub counted : Kind → FinancialEventType → NotificationChannel → List CountRow → ℕ
counted p e c [] = 0
counted p e c (row ∷ rows) =
    if row_has_key e c row && p row.status row.skip_reason
    then row.count + counted p e c rows
    else counted p e c rows

-- What the aggregates of a key say, of a column.
abbrev pub column : (Aggregate → ℕ) → FinancialEventType → NotificationChannel → List Aggregate → ℕ
column m e c [] = 0
column m e c (a ∷ rest) = if has_key e c a then m a + column m e c rest else column m e c rest

-- A column that counts the rows of a kind.
abbrev pub Counts : (Aggregate → ℕ) → Kind → Type 0
Counts m p =
    ((e : FinancialEventType) (c : NotificationChannel) → m (new_aggregate e c) ≡ 0)
    × ((s : NotificationStatus) (k : Option SkipReason) (n : ℕ) (a : Aggregate)
        → m (count_status s k n a) ≡ m a + (if p s k then n else 0))

key_of_skip :
    (k : Option SkipReason) (n : ℕ) (a : Aggregate) (e : FinancialEventType)
    (c : NotificationChannel)
    → has_key e c (count_skip k n a) ≡ has_key e c a
unfolding count_skip
key_of_skip none n a e c = refl
key_of_skip (some SkipReason.dnd_registered) n a e c = refl
key_of_skip (some SkipReason.quiet_hours) n a e c = refl
key_of_skip (some SkipReason.frequency_capped) n a e c = refl
key_of_skip (some SkipReason.user_opt_out) n a e c = refl
key_of_skip (some SkipReason.channel_disabled) n a e c = refl
key_of_skip (some SkipReason.invalid_contact) n a e c = refl

key_of_count :
    (s : NotificationStatus) (k : Option SkipReason) (n : ℕ) (a : Aggregate)
    (e : FinancialEventType) (c : NotificationChannel)
    → has_key e c (count_status s k n a) ≡ has_key e c a
unfolding count_status
key_of_count NotificationStatus.skipped k n a e c =
    key_of_skip k n (record a { total_skipped = a.total_skipped + n }) e c
key_of_count NotificationStatus.pending k n a e c = refl
key_of_count NotificationStatus.queued k n a e c = refl
key_of_count NotificationStatus.processing k n a e c = refl
key_of_count NotificationStatus.sent k n a e c = refl
key_of_count NotificationStatus.delivered k n a e c = refl
key_of_count NotificationStatus.failed k n a e c = refl
key_of_count NotificationStatus.retrying k n a e c = refl
key_of_count NotificationStatus.dead k n a e c = refl
key_of_count NotificationStatus.cancelled k n a e c = refl

-- A row and an aggregate with its key have the same keys.
same_key :
    (row : CountRow) (a : Aggregate) (e : FinancialEventType) (c : NotificationChannel)
    → has_key row.event_type row.channel a ≡ true
    → has_key e c a ≡ row_has_key e c row
same_key row a e c h =
    ap (λ t. event_eq t e && channel_eq a.channel c)
      (event_eq_sound a.event_type row.event_type (ground arith))
    ∙ ap (λ d. event_eq row.event_type e && channel_eq d c)
        (channel_eq_sound a.channel row.channel (ground arith))

module _ (m : Aggregate → ℕ) (p : Kind) (counts : Counts m p) (e : FinancialEventType)
    (c : NotificationChannel) where
  column-add_count :
      (row : CountRow) (rest : List Aggregate)
      → column m e c (add_count row rest) ≡ column m e c rest + counted p e c (row ∷ [])
  unfolding add_count
  column-add_count row [] =
      let k =
        key_of_count row.status row.skip_reason row.count (new_aggregate row.event_type row.channel)
          e c in
      let n =
        counts.1 row.status row.skip_reason row.count (new_aggregate row.event_type row.channel) in
      let z = counts.0 row.event_type row.channel in ground (arith, k, n, z)
  column-add_count row (a ∷ rest) =
      let k = key_of_count row.status row.skip_reason row.count a e c in
      let n = counts.1 row.status row.skip_reason row.count a in
      elim (Bool-cases (has_key row.event_type row.channel a)) [
        | inl same ↦
            subst
              (λ b.
                column m e c (
                  if b
                  then count_status row.status row.skip_reason row.count a ∷ rest
                  else a ∷ add_count row rest)
                ≡ column m e c (a ∷ rest) + counted p e c (row ∷ []))
              (sym same) (ground (arith, k, n, same_key row a e c same))
        | inr other ↦
            subst
              (λ b.
                column m e c (
                  if b
                  then count_status row.status row.skip_reason row.count a ∷ rest
                  else a ∷ add_count row rest)
                ≡ column m e c (a ∷ rest) + counted p e c (row ∷ []))
              (sym other) (ground (arith, column-add_count row rest))
      ]

  column-aggregates :
      (rows : List CountRow) (acc : List Aggregate)
      → column m e c (aggregates rows acc) ≡ column m e c acc + counted p e c rows
  unfolding aggregates
  column-aggregates [] acc = omega arith
  column-aggregates (row ∷ rows) acc =
      ground (arith, column-aggregates rows (add_count row acc), column-add_count row acc)

  pub column-of_day :
      (rows : List CountRow) → column m e c (aggregates rows []) ≡ counted p e c rows
  column-of_day rows = column-aggregates rows [] ∙ omega arith
