-- ===== src/Notifications/Run.antt =====
-- reminder-job.service.ts: `runOnce`, `scanPage` and `storedReminderKeys`, of a run that no other
-- request interleaves with.
use hktutor.Shared.{
  [], ◌∷◌, none, some, ℕ, zero, suc, List, Option, Bool, ◌+◌, false, select, true, ◌&&◌, any,
  if◌then◌else◌, ltb, leb, ◌==◌,
}
use hktutor.Database.Results.{ok}
use hktutor.Database.Schema.{
  event_key, reminder_key, band_24h, EventKey, Time, Store, Uuid, Booking, Notification,
}
use hktutor.Database.Actions.{Action, ◌>>=◌, pure, reads}
use hktutor.Paging.Pages.{length, last, read_rows}
use hktutor.Notifications.Reminders.{
  ReminderBooking, ReminderOutcome, reminder_of, remind_booking, window,
}
use hktutor.Paging.Keys.{Key, is_later}
use hktutor.Database.Enums.{is_confirmed}
use hktutor.Database.Values.{Value}
use hktutor.Database.Queries.{with_slot}

-- `orderBy: [{ slot: { startAtUtc: 'asc' } }, { id: 'asc' }]`
abbrev pub row_key : ReminderBooking → Key
row_key b = record { time = b.start_at; id = b.id }

abbrev pub prepend : Option ReminderBooking → List ReminderBooking → List ReminderBooking
prepend none bs = bs
prepend (some b) bs = b ∷ bs

-- The bookings with what `reminderBookingSelect` selects of them.
unfoldable pub reminder_rows : Store → List Booking → List ReminderBooking
unfolding reminder_of
reminder_rows s [] = []
reminder_rows s (b ∷ bs) =
    let rest = reminder_rows s bs in prepend (reminder_of s (with_slot s (some b))) rest

-- `status: CONFIRMED, slot: { startAtUtc: { gt: nowUtc, lte: windowEnd } }`
abbrev pub is_due : Time → ReminderBooking → Bool
is_due now b = is_confirmed b.status && ltb now b.start_at && leb b.start_at (now + window band_24h)

-- `scanPage`, with `REMINDER_SCAN_PAGE_SIZE`
unfoldable pub scan_page : Time → Option Key → Store → List ReminderBooking
unfolding read_rows reminder_rows
scan_page now cursor s =
    read_rows row_key is_later (is_due now) 100 cursor (reminder_rows s s.bookings)

-- `eventKey: { startsWith: 'reminder:' }`
abbrev pub is_reminder_key : EventKey → Bool
is_reminder_key (event_key t i) = false
is_reminder_key (reminder_key b i t d k) = true

-- `storedReminderKeys`
unfoldable pub stored_reminder_keys : List ReminderBooking → Store → List Notification
stored_reminder_keys page s =
    select (λ n. any (λ b. b.id == n.booking_id) page && is_reminder_key n.key) s.notifications

pub record ReminderRunResult : Type 0 where
  pub scanned : ℕ
  pub created : ℕ
  pub duplicates : ℕ
  pub failed : ℕ

abbrev pub add_outcome : ReminderRunResult → ReminderOutcome → ReminderRunResult
add_outcome totals o = record {
  scanned = totals.scanned + 1;
  created = totals.created + o.created;
  duplicates = totals.duplicates + o.duplicates;
  failed = totals.failed + o.failed;
}

-- The database may refuse the transaction of any booking.
module _ (now : Time) (refusals : Uuid → Option Value) where
  -- The bookings of one page.
  unfoldable pub remind_page :
      List ReminderBooking → List Notification → ReminderRunResult → Action ReminderRunResult
  unfolding remind_booking
  remind_page [] stored totals = pure totals
  remind_page (b ∷ bs) stored totals = do
    outcome ← remind_booking b stored now (refusals b.id)
    remind_page bs stored (add_outcome totals outcome)

  -- `!last || page.length < REMINDER_SCAN_PAGE_SIZE`
  abbrev pub after_last :
      Option ReminderBooking
      → Bool
      → ReminderRunResult
      → (Key → Action (Option ReminderRunResult))
      → Action (Option ReminderRunResult)
  after_last none short totals follow = pure (some totals)
  after_last (some b) short totals follow = if short then pure (some totals) else follow (row_key b)

  abbrev pub after_scan :
      List ReminderBooking
      → ReminderRunResult
      → (Key → Action (Option ReminderRunResult))
      → Action (Option ReminderRunResult)
  after_scan page totals follow = after_last (last page) (ltb (length page) 100) totals follow

  -- The loop of `runOnce`: `none` where the fuel runs out.
  unfoldable pub run_pages : ℕ → Option Key → ReminderRunResult → Action (Option ReminderRunResult)
  unfolding scan_page stored_reminder_keys remind_page
  run_pages zero cursor totals = pure none
  run_pages (suc fuel) cursor totals = do
    page ← reads (λ s. ok (scan_page now cursor s))
    stored ← reads (λ s. ok (stored_reminder_keys page s))
    totals' ← remind_page page stored totals
    after_scan page totals' (λ k. run_pages fuel (some k) totals')

  -- `runOnce`
  unfoldable pub run_once : ℕ → Action (Option ReminderRunResult)
  unfolding run_pages
  run_once fuel =
      run_pages fuel none (record { scanned = 0; created = 0; duplicates = 0; failed = 0 })
