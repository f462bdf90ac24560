-- ===== src/Bookings/Cancel/Checks.antt =====
-- bookings.service.ts: the checks of `cancelBooking` on the row that it reads.
use hktutor.Shared.{◌+◌, ◌*◌, ◌&&◌, ◌!=◌, ltb, Text}
use hktutor.Database.Enums.{is_paid, is_completed, is_canceled, is_expired}
use hktutor.Database.Schema.{Uuid, Time, Store, Booking}
use hktutor.Database.Exceptions.{
  booking_not_found, booking_not_participant, booking_already_paid, payment_in_progress,
  booking_already_completed, booking_already_canceled, booking_already_expired,
  booking_exceed_cancel_range,
}
use hktutor.Database.Results.{Result, ok, or_throw, throw_if, ◌>>=◌, ◌>>◌}
use hktutor.Database.Queries.{find_booking_with_slot}
use hktutor.Bookings.Amounts.{milliseconds_per_hour}

pub record CancelInput : Type 0 where
  pub booking_id : Uuid
  pub reason : Text
  pub user_id : Uuid

unfoldable pub check_cancelable : CancelInput → Time → Store → Result Booking
check_cancelable input now s = do
  (booking, slot) ← or_throw (find_booking_with_slot input.booking_id s) booking_not_found
  throw_if (booking.student_user_id != input.user_id && booking.tutor_profile_id != input.user_id)
      booking_not_participant
  throw_if (is_paid booking.payment_status) booking_already_paid
  throw_if booking.payment_pending payment_in_progress
  throw_if (is_completed booking.status) booking_already_completed
  throw_if (is_canceled booking.status) booking_already_canceled
  throw_if (is_expired booking.status) booking_already_expired
  throw_if (ltb slot.start_at (now + 24 * milliseconds_per_hour)) booking_exceed_cancel_range
  ok booking
