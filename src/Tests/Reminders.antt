-- ===== src/Tests/Reminders.antt =====
-- A run of the reminder job.
use hktutor.Shared.{
  All, any, true, select, ◌&&◌, refl, [], ◌∷◌, none, some, ℕ, ◌-◌, List, count_where, ◌≡◌, arith,
}
use hktutor.Database.Results.{ok}
use hktutor.Tests.Data.{confirmed_booking, tables, in_two_days}
use hktutor.Database.Schema.{Store, Notification}
use hktutor.Notifications.Run.{
  ReminderRunResult, reminder_rows, run_once, run_pages, scan_page, stored_reminder_keys, is_due,
  remind_page, row_key,
}
use hktutor.Notifications.Reminders.{
  reminder_of, to_reminder_booking, remind_booking, remind_locked, plan_reminders, all_stored,
  write_reminders, select_reminder_band, plan_in_band, plan_locked, count_new, insert_all,
}
use hktutor.Paging.Order.{IsDistinct}
use hktutor.Notifications.Frames.{notified}
use hktutor.Notifications.Scan.{run_once_ends}
use hktutor.Paging.Keys.{is_later}
use hktutor.Paging.Pages.{read_rows, order, insert_ordered}
use hktutor.Notifications.Events.{insert_new, same_row, same_key}

abbrev due_tables : Store
due_tables = tables (confirmed_booking ∷ []) [] []

-- A minute before the class begins.
abbrev minute_before : ℕ
minute_before = in_two_days - 60000

one_row : IsDistinct row_key is_later (reminder_rows due_tables due_tables.bookings)
unfolding reminder_rows reminder_of to_reminder_booking
one_row = (tt, tt)

one_due : count_where (is_due minute_before) (reminder_rows due_tables due_tables.bookings) ≡ 1
unfolding reminder_rows reminder_of to_reminder_booking
one_due = refl

run_once_ends_example :
    (r : ReminderRunResult) × (ns : List Notification) × (run_once minute_before
        (λ b. none)
        2
        due_tables
      ≡ (ok (some r), notified ns due_tables))
    × (r.scanned
        ≡ count_where (is_due minute_before) (reminder_rows due_tables due_tables.bookings))
    × All
        (λ b. All (λ p. any (same_row p.user_id p.key) ns ≡ true) (plan_reminders b minute_before))
        (select
          (λ b. is_due minute_before b && true)
          (reminder_rows due_tables due_tables.bookings))
run_once_ends_example =
    run_once_ends minute_before (λ b. none) due_tables one_row 2 (λ i. ground arith)
      (omega (arith, one_due))

-- The student and the tutor are reminded of the class, and the student of the payment.
run :
    (run_once minute_before (λ b. none) 2 due_tables).0
    ≡ ok (some (record { scanned = 1; created = 3; duplicates = 0; failed = 0 }))
unfolding run_once run_pages scan_page stored_reminder_keys remind_page remind_booking remind_locked
    plan_reminders all_stored write_reminders reminder_rows reminder_of to_reminder_booking
    read_rows order insert_ordered select_reminder_band plan_in_band plan_locked count_new
    insert_all insert_new same_row same_key
run = refl
