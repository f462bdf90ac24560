-- ===== src/Notifications/Reminders.antt =====
-- reminder-policy.ts, `writeReminders` of notification-events.service.ts, and `remindBooking` of
-- reminder-job.service.ts.
use hktutor.Shared.{
  ℕ, Bool, true, false, not, Option, none, some, List, [], ◌∷◌, ◌++◌, ◌+◌, ◌-◌, ◌*◌, ◌&&◌, ◌||◌,
  ◌==◌, ltb, leb, is_none, if◌then◌else◌, any, map,
}
use hktutor.Database.Enums.{
  AccountStatus, BookingStatus, PaymentStatus, is_account_active, is_confirmed, is_unpaid,
}
use hktutor.Database.Values.{Value}
use hktutor.Database.Schema.{
  Uuid, Time, Store, User, Booking, AvailabilitySlot, ReminderBand, ReminderKind, band_24h, band_1h,
  class_reminder, payment_reminder, EventType, reminder, EventKey, event_key, reminder_key,
  Notification,
}
use hktutor.Database.Exceptions.{reminder_foreign_booking}
use hktutor.Database.Results.{Result, ok, throw}
use hktutor.Database.Actions.{Action, ◌>>=◌, ◌>>◌, pure, reads, fail_if, transaction}
use hktutor.Database.Queries.{find_user, find_booking_with_slot}
use hktutor.Notifications.Events.{same_row, insert_new}

-- `HOUR_MS`
abbrev pub hour : ℕ
hour = 60 * 60 * 1000

-- `REMINDER_WINDOW_MS`
abbrev pub window : ReminderBand → ℕ
window band_24h = 24 * hour
window band_1h = hour

-- `selectReminderBand`: the difference of two times is positive where the first is the later one.
unfoldable pub select_reminder_band : Time → Time → Option ReminderBand
select_reminder_band start now =
    if leb start now || ltb (now + window band_24h) start
    then none
    else some (if ltb (now + window band_1h) start then band_24h else band_1h)

pub record ReminderRecipient : Type 0 where
  pub user_id : Uuid
  pub account_status : AccountStatus
  pub deleted_at : Option Time

pub record ReminderBooking : Type 0 where
  pub id : Uuid
  pub slot_id : Uuid
  pub start_at : Time
  pub status : BookingStatus
  pub payment_status : PaymentStatus
  pub student : ReminderRecipient
  pub tutor : ReminderRecipient

pub record PlannedReminder : Type 0 where
  pub user_id : Uuid
  pub event_type : EventType
  pub key : EventKey

-- `reminderEventKey`
abbrev pub reminder_event_key : ReminderBooking → ReminderBand → ReminderKind → EventKey
reminder_event_key b band kind = reminder_key b.id b.slot_id b.start_at band kind

-- `isActive`
abbrev pub is_active_recipient : ReminderRecipient → Bool
is_active_recipient r = is_account_active r.account_status && is_none r.deleted_at

abbrev pub planned :
    ReminderBooking → ReminderBand → ReminderRecipient → ReminderKind → PlannedReminder
planned b band r kind = record {
  user_id = r.user_id;
  event_type = reminder kind band;
  key = reminder_event_key b band kind;
}

abbrev pub when : Bool → PlannedReminder → List PlannedReminder
when b p = if b then p ∷ [] else []

unfoldable pub plan_in_band : ReminderBooking → Option ReminderBand → List PlannedReminder
plan_in_band b none = []
plan_in_band b (some band) =
    if not (is_confirmed b.status)
    then []
    else when (is_active_recipient b.student) (planned b band b.student class_reminder)
      ++ when (is_active_recipient b.tutor) (planned b band b.tutor class_reminder)
      ++ when (is_unpaid b.payment_status && is_active_recipient b.student)
          (planned b band b.student payment_reminder)

-- `planReminders`
unfoldable pub plan_reminders : ReminderBooking → Time → List PlannedReminder
unfolding select_reminder_band plan_in_band
plan_reminders b now = plan_in_band b (select_reminder_band b.start_at now)

-- `eventKey.startsWith('reminder:' + bookingId + ':')`
abbrev pub is_key_of : Uuid → EventKey → Bool
is_key_of booking (event_key t i) = false
is_key_of booking (reminder_key b i t d k) = b == booking

abbrev pub reminder_row : Uuid → PlannedReminder → Notification
reminder_row booking p = record {
  user_id = p.user_id;
  key = p.key;
  event_type = p.event_type;
  booking_id = booking;
}

-- `createMany` with `skipDuplicates`: the rows, and how many of them were new.
unfoldable pub insert_all : List Notification → List Notification → List Notification
unfolding insert_new
insert_all [] rows = rows
insert_all (n ∷ ns) rows = insert_all ns (insert_new n rows)

unfoldable pub count_new : List Notification → List Notification → ℕ
unfolding insert_new same_row
count_new [] rows = 0
count_new (n ∷ ns) rows =
    (if any (same_row n.user_id n.key) rows then 0 else 1) + count_new ns (insert_new n rows)

abbrev pub save_all : List Notification → Action ℕ
save_all ns s =
    (ok (count_new ns s.notifications), record s { notifications = insert_all ns s.notifications })

-- `writeReminders`
unfoldable pub write_reminders : Uuid → List PlannedReminder → Action ℕ
write_reminders booking [] = pure 0
write_reminders booking (p ∷ ps) = do
  fail_if (any (λ q. not (is_key_of booking q.key)) (p ∷ ps)) reminder_foreign_booking
  save_all (map (reminder_row booking) (p ∷ ps))

abbrev pub recipient : User → ReminderRecipient
recipient u = record {
  user_id = u.id;
  account_status = u.account_status;
  deleted_at = u.deleted_at;
}

-- `toReminderBooking`; the two users stand behind foreign keys of the booking.
unfoldable pub to_reminder_booking :
    Booking → AvailabilitySlot → Option User → Option User → Option ReminderBooking
to_reminder_booking b slot (some student) (some tutor) = some (record {
  id = b.id;
  slot_id = b.slot_id;
  start_at = slot.start_at;
  status = b.status;
  payment_status = b.payment_status;
  student = recipient student;
  tutor = recipient tutor;
})
to_reminder_booking b slot _ _ = none

unfoldable pub reminder_of : Store → Option (Booking × AvailabilitySlot) → Option ReminderBooking
unfolding to_reminder_booking
reminder_of s none = none
reminder_of s (some (b, slot)) =
    to_reminder_booking b slot (find_user b.student_user_id s) (find_user b.tutor_profile_id s)

unfoldable pub plan_locked : Option ReminderBooking → Time → List PlannedReminder
unfolding plan_reminders
plan_locked none now = []
plan_locked (some b) now = plan_reminders b now

abbrev pub length : List PlannedReminder → ℕ
length [] = 0
length (_ ∷ ps) = length ps + 1

-- `stored.has(reminderKey(reminder))` for each planned reminder
unfoldable pub all_stored : List Notification → List PlannedReminder → Bool
unfolding same_row
all_stored rows [] = true
all_stored rows (p ∷ ps) = any (same_row p.user_id p.key) rows && all_stored rows ps

pub record ReminderOutcome : Type 0 where
  pub created : ℕ
  pub duplicates : ℕ
  pub failed : ℕ

-- The transaction of `remindBooking`, which plans anew under the booking's lock.
unfoldable pub remind_locked : Uuid → Time → Option Value → Action ReminderOutcome
unfolding reminder_of plan_locked write_reminders
remind_locked booking now refusal = transaction refusal do
  plan ← reads (λ s. ok (plan_locked (reminder_of s (find_booking_with_slot booking s)) now))
  created ← write_reminders booking plan
  pure (record { created = created; duplicates = length plan - created; failed = 0 })

abbrev pub or_failed : Result ReminderOutcome × Store → Result ReminderOutcome × Store
or_failed (ok r, s) = (ok r, s)
or_failed (throw e, s) = (ok (record { created = 0; duplicates = 0; failed = 1 }), s)

-- `remindBooking`, of a row that the scan read and the reminders that were stored then.
unfoldable pub remind_booking :
    ReminderBooking → List Notification → Time → Option Value → Action ReminderOutcome
unfolding plan_reminders all_stored remind_locked
remind_booking row stored now refusal s =
    let snapshot = plan_reminders row now in
    if all_stored stored snapshot
    then (ok (record { created = 0; duplicates = length snapshot; failed = 0 }), s)
    else or_failed (remind_locked row.id now refusal s)
