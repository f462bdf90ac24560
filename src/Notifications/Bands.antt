-- ===== src/Notifications/Bands.antt =====
-- The time before a class at which a reminder is due: `selectReminderBand` and `planReminders`.
use hktutor.Shared.{
  ℕ, refl, some, none, ◌≡◌, any, not, ◌<◌, ◌≤◌, false, ◌+◌, ◌⊎◌, ◌*◌, Option, arith, ==_self,
}
use hktutor.Notifications.Reminders.{
  plan_reminders, select_reminder_band, plan_in_band, ReminderBooking, is_key_of, hour,
  write_reminders,
}
use hktutor.Database.Schema.{Time, band_1h, band_24h, ReminderBand, Store}
use hktutor.Database.Results.{ok}
use hktutor.Notifications.Rows.{AreWritten, write_reminders-AreWritten}

-- A class is reminded of in one of two bands, that of the last hour or that of the last day: within
-- an hour, above an hour and within 24 hours, and in no band when it has begun or is further away.
pub select_reminder_band_lem :
    (start now : Time)
    → (select_reminder_band start now ≡ some band_1h) × (now < start) × (start ≤ now + hour)
      ⊎ (select_reminder_band start now ≡ some band_24h)
        × (now + hour < start)
        × (start ≤ now + 24 * hour)
      ⊎ (select_reminder_band start now ≡ none) × ((start ≤ now) ⊎ (now + 24 * hour < start))
unfolding select_reminder_band
select_reminder_band_lem start now = ground arith

own_keys :
    (b : ReminderBooking) (band : Option ReminderBand)
    → any (λ p. not (is_key_of b.id p.key)) (plan_in_band b band) ≡ false
unfolding plan_in_band
own_keys b none = refl
own_keys b (some band) = ground (arith, ==_self b.id)

-- What is planned for a booking is written for it: its keys are the booking's own, so that the check
-- of `writeReminders` passes; then every planned reminder is stored for its user, all rows that were
-- stored still are, and the number that is returned is that of the rows that were added.
pub plan_reminders-write_reminders :
    (b : ReminderBooking) (now : Time) (s : Store)
    → (n : ℕ) × (t : Store) × (write_reminders b.id (plan_reminders b now) s ≡ (ok n, t))
      × AreWritten (plan_reminders b now) n s t
unfolding plan_reminders
plan_reminders-write_reminders b now s =
    write_reminders-AreWritten b.id (plan_in_band b (select_reminder_band b.start_at now)) s
      (own_keys b (select_reminder_band b.start_at now))
