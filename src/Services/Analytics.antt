-- ===== src/Services/Analytics.antt =====
-- app/services/analytics_service.py: `upsert_daily_aggregates`. The grouping and counting of the rows of
-- a day is the database's query, whose rows are the argument. The latency column is left out; the
-- delivery rate is kept as a fraction.
use financial_notification_p.Prelude.{
  ℕ, ◌+◌, Bool, true, false, ◌&&◌, Option, none, some, List, [], ◌∷◌, ◌++◌, ltb, ◌==◌,
  if◌then◌else◌,
}
use financial_notification_p.Core.Constants.{
  FinancialEventType, NotificationChannel, NotificationStatus, SkipReason, event_eq, channel_eq,
}
pub mod Totals
pub mod Columns

pub record CountRow : Type 0 where
  pub event_type : FinancialEventType
  pub channel : NotificationChannel
  pub status : NotificationStatus
  pub skip_reason : Option SkipReason
  pub count : ℕ

pub record Aggregate : Type 0 where
  pub event_type : FinancialEventType
  pub channel : NotificationChannel
  pub total_sent : ℕ
  pub total_delivered : ℕ
  pub total_failed : ℕ
  pub total_skipped : ℕ
  pub total_retried : ℕ
  pub total_dead : ℕ
  pub skip_dnd : ℕ
  pub skip_quiet_hours : ℕ
  pub skip_frequency_cap : ℕ
  pub skip_user_opt_out : ℕ

abbrev pub new_aggregate : FinancialEventType → NotificationChannel → Aggregate
new_aggregate e c = record {
  event_type = e;
  channel = c;
  total_sent = 0;
  total_delivered = 0;
  total_failed = 0;
  total_skipped = 0;
  total_retried = 0;
  total_dead = 0;
  skip_dnd = 0;
  skip_quiet_hours = 0;
  skip_frequency_cap = 0;
  skip_user_opt_out = 0;
}

unfoldable pub count_skip : Option SkipReason → ℕ → Aggregate → Aggregate
count_skip (some SkipReason.dnd_registered) n a = record a { skip_dnd = a.skip_dnd + n }
count_skip (some SkipReason.quiet_hours) n a = record a {
  skip_quiet_hours = a.skip_quiet_hours + n;
}
count_skip (some SkipReason.frequency_capped) n a = record a {
  skip_frequency_cap = a.skip_frequency_cap + n;
}
count_skip (some SkipReason.user_opt_out) n a = record a {
  skip_user_opt_out = a.skip_user_opt_out + n;
}
count_skip _ n a = a

unfoldable pub count_status : NotificationStatus → Option SkipReason → ℕ → Aggregate → Aggregate
count_status NotificationStatus.sent k n a = record a { total_sent = a.total_sent + n }
count_status NotificationStatus.delivered k n a = record a {
  total_delivered = a.total_delivered + n;
  total_sent = a.total_sent + n;
}
count_status NotificationStatus.failed k n a = record a { total_failed = a.total_failed + n }
count_status NotificationStatus.skipped k n a =
    count_skip k n (record a { total_skipped = a.total_skipped + n })
count_status NotificationStatus.retrying k n a = record a { total_retried = a.total_retried + n }
count_status NotificationStatus.dead k n a = record a { total_dead = a.total_dead + n }
count_status _ k n a = a

abbrev pub has_key : FinancialEventType → NotificationChannel → Aggregate → Bool
has_key e c a = event_eq a.event_type e && channel_eq a.channel c

-- The dictionary in the order of its keys' first rows.
unfoldable pub add_count : CountRow → List Aggregate → List Aggregate
add_count row [] =
    count_status row.status row.skip_reason row.count (new_aggregate row.event_type row.channel)
    ∷ []
add_count row (a ∷ rest) =
    if has_key row.event_type row.channel a
    then count_status row.status row.skip_reason row.count a ∷ rest
    else a ∷ add_count row rest

unfoldable pub aggregates : List CountRow → List Aggregate → List Aggregate
aggregates [] acc = acc
aggregates (row ∷ rows) acc = aggregates rows (add_count row acc)

-- `total_delivered` of `total`, which the code makes a percentage rounded to two decimals
abbrev pub delivery_rate : Aggregate → Option (ℕ × ℕ)
delivery_rate a =
    let total = a.total_sent + a.total_failed + a.total_skipped in
    if ltb 0 total then some (a.total_delivered, total) else none

pub record NotificationAnalytics : Type 0 where
  pub date : ℕ
  pub data_ : Aggregate
  pub rate : Option (ℕ × ℕ)

-- The row of the day and the key is overwritten, or added at the end.
unfoldable pub upsert : ℕ → Aggregate → List NotificationAnalytics → List NotificationAnalytics
upsert date a [] = record { date = date; data_ = a; rate = delivery_rate a } ∷ []
upsert date a (r ∷ rs) =
    if r.date == date && has_key a.event_type a.channel r.data_
    then record { date = date; data_ = a; rate = delivery_rate a } ∷ rs
    else r ∷ upsert date a rs

unfoldable pub upsert_all :
    ℕ → List Aggregate → List NotificationAnalytics → List NotificationAnalytics
upsert_all date [] rs = rs
upsert_all date (a ∷ rest) rs = upsert_all date rest (upsert date a rs)

unfoldable pub upsert_daily_aggregates :
    ℕ → List CountRow → List NotificationAnalytics → List NotificationAnalytics
upsert_daily_aggregates date rows rs = upsert_all date (aggregates rows []) rs
