-- ===== src/Services/Analytics/Columns.antt =====
-- Each column of the daily aggregates, and all of them together.
use financial_notification_p.Prelude.{◌≡◌, refl, true, false, some, List, [], arith}
use financial_notification_p.Core.Constants.{
  FinancialEventType, NotificationChannel, NotificationStatus, SkipReason,
}
use financial_notification_p.Services.Analytics.{CountRow, count_skip, count_status, aggregates}
use financial_notification_p.Services.Analytics.Totals.{
  Kind, Counts, counted, column, column-of_day,
}

abbrev pub is_sent : Kind
is_sent NotificationStatus.sent k = true
is_sent NotificationStatus.delivered k = true
is_sent _ k = false

abbrev pub is_delivered : Kind
is_delivered NotificationStatus.delivered k = true
is_delivered _ k = false

abbrev pub is_failed : Kind
is_failed NotificationStatus.failed k = true
is_failed _ k = false

abbrev pub is_skipped : Kind
is_skipped NotificationStatus.skipped k = true
is_skipped _ k = false

abbrev pub is_retried : Kind
is_retried NotificationStatus.retrying k = true
is_retried _ k = false

abbrev pub is_dead : Kind
is_dead NotificationStatus.dead k = true
is_dead _ k = false

abbrev pub is_skipped_dnd : Kind
is_skipped_dnd NotificationStatus.skipped (some SkipReason.dnd_registered) = true
is_skipped_dnd _ _ = false

abbrev pub is_skipped_quiet_hours : Kind
is_skipped_quiet_hours NotificationStatus.skipped (some SkipReason.quiet_hours) = true
is_skipped_quiet_hours _ _ = false

abbrev pub is_skipped_frequency_cap : Kind
is_skipped_frequency_cap NotificationStatus.skipped (some SkipReason.frequency_capped) = true
is_skipped_frequency_cap _ _ = false

abbrev pub is_skipped_opt_out : Kind
is_skipped_opt_out NotificationStatus.skipped (some SkipReason.user_opt_out) = true
is_skipped_opt_out _ _ = false

total_sent-Counts : Counts (λ a. a.total_sent) is_sent
unfolding count_status count_skip
total_sent-Counts = (λ e c. refl, λ s k n a. ground arith)

total_delivered-Counts : Counts (λ a. a.total_delivered) is_delivered
unfolding count_status count_skip
total_delivered-Counts = (λ e c. refl, λ s k n a. ground arith)

total_failed-Counts : Counts (λ a. a.total_failed) is_failed
unfolding count_status count_skip
total_failed-Counts = (λ e c. refl, λ s k n a. ground arith)

total_skipped-Counts : Counts (λ a. a.total_skipped) is_skipped
unfolding count_status count_skip
total_skipped-Counts = (λ e c. refl, λ s k n a. ground arith)

total_retried-Counts : Counts (λ a. a.total_retried) is_retried
unfolding count_status count_skip
total_retried-Counts = (λ e c. refl, λ s k n a. ground arith)

total_dead-Counts : Counts (λ a. a.total_dead) is_dead
unfolding count_status count_skip
total_dead-Counts = (λ e c. refl, λ s k n a. ground arith)

skip_dnd-Counts : Counts (λ a. a.skip_dnd) is_skipped_dnd
unfolding count_status count_skip
skip_dnd-Counts = (λ e c. refl, λ s k n a. ground arith)

skip_quiet_hours-Counts : Counts (λ a. a.skip_quiet_hours) is_skipped_quiet_hours
unfolding count_status count_skip
skip_quiet_hours-Counts = (λ e c. refl, λ s k n a. ground arith)

skip_frequency_cap-Counts : Counts (λ a. a.skip_frequency_cap) is_skipped_frequency_cap
unfolding count_status count_skip
skip_frequency_cap-Counts = (λ e c. refl, λ s k n a. ground arith)

skip_user_opt_out-Counts : Counts (λ a. a.skip_user_opt_out) is_skipped_opt_out
unfolding count_status count_skip
skip_user_opt_out-Counts = (λ e c. refl, λ s k n a. ground arith)

-- Whatever rows the query of a day gives, for every event type and channel: the aggregates hold as
-- sent what the rows count as sent or delivered, as delivered, failed, skipped, retried and dead
-- exactly what the rows count of that status, and for each of the four reasons to skip that have a
-- column exactly what the rows count as skipped for it.
pub aggregates-totals :
    (rows : List CountRow) (e : FinancialEventType) (c : NotificationChannel)
    → (column (λ a. a.total_sent) e c (aggregates rows []) ≡ counted is_sent e c rows)
      × (column (λ a. a.total_delivered) e c (aggregates rows []) ≡ counted is_delivered e c rows)
      × (column (λ a. a.total_failed) e c (aggregates rows []) ≡ counted is_failed e c rows)
      × (column (λ a. a.total_skipped) e c (aggregates rows []) ≡ counted is_skipped e c rows)
      × (column (λ a. a.total_retried) e c (aggregates rows []) ≡ counted is_retried e c rows)
      × (column (λ a. a.total_dead) e c (aggregates rows []) ≡ counted is_dead e c rows)
      × (column (λ a. a.skip_dnd) e c (aggregates rows []) ≡ counted is_skipped_dnd e c rows)
      × (column (λ a. a.skip_quiet_hours) e c (aggregates rows [])
          ≡ counted is_skipped_quiet_hours e c rows)
      × (column (λ a. a.skip_frequency_cap) e c (aggregates rows [])
          ≡ counted is_skipped_frequency_cap e c rows)
      × (column (λ a. a.skip_user_opt_out) e c (aggregates rows [])
          ≡ counted is_skipped_opt_out e c rows)
aggregates-totals rows e c = (
  column-of_day (λ a. a.total_sent) is_sent total_sent-Counts e c rows,
  column-of_day (λ a. a.total_delivered) is_delivered total_delivered-Counts e c rows,
  column-of_day (λ a. a.total_failed) is_failed total_failed-Counts e c rows,
  column-of_day (λ a. a.total_skipped) is_skipped total_skipped-Counts e c rows,
  column-of_day (λ a. a.total_retried) is_retried total_retried-Counts e c rows,
  column-of_day (λ a. a.total_dead) is_dead total_dead-Counts e c rows,
  column-of_day (λ a. a.skip_dnd) is_skipped_dnd skip_dnd-Counts e c rows,
  column-of_day (λ a. a.skip_quiet_hours) is_skipped_quiet_hours skip_quiet_hours-Counts e c rows,
  column-of_day (λ a. a.skip_frequency_cap) is_skipped_frequency_cap skip_frequency_cap-Counts e c
      rows,
  column-of_day (λ a. a.skip_user_opt_out) is_skipped_opt_out skip_user_opt_out-Counts e c rows,
)
