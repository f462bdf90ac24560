-- ===== src/Bookings/Cancel.antt =====
-- bookings.service.ts: `cancelBooking`.
pub mod Checks
pub use Checks.{CancelInput}
unfoldable pub use Checks.{check_cancelable}
use hktutor.Shared.{
  ℕ, Bool, true, false, not, Option, none, some, ◌+◌, ◌*◌, ◌&&◌, ◌==◌, ◌!=◌, ltb, Text, trim, [],
  ◌∷◌,
}
use hktutor.Database.Enums.{
  BookingStatus, is_paid, is_unpaid, is_completed, is_canceled, is_expired, holds_slot,
}
use hktutor.Database.Values.{record_not_found, Value, booking_conflict_codes}
use hktutor.Database.Schema.{Uuid, Time, Store, Booking, booking_canceled}
use hktutor.Database.Exceptions.{
  thrown, booking_not_found, booking_not_participant, booking_already_paid, payment_in_progress,
  booking_already_completed, booking_already_canceled, booking_already_expired,
  booking_exceed_cancel_range, booking_transition_conflict, missing_reason,
}
use hktutor.Database.Results.{ok, or_throw}
use hktutor.Database.Actions.{
  Action, ◌>>=◌, ◌>>◌, pure, reads, fail_if, update_bookings, transaction, catch_conflict,
}
use hktutor.Database.Queries.{find_booking, find_booking_with_slot}
use hktutor.Bookings.Amounts.{milliseconds_per_hour}
use hktutor.Notifications.Events.{write}

-- The `where` of the update. The slot is compared, since an approved reschedule may have moved the
-- class after the check of the cutoff.
abbrev pub is_cancelable : CancelInput → Uuid → Booking → Bool
is_cancelable input slot b =
    b.id == input.booking_id
    && is_unpaid b.payment_status
    && not b.payment_pending
    && b.slot_id == slot
    && holds_slot b.status

abbrev pub cancel_row : CancelInput → Text → Time → Booking → Booking
cancel_row input reason at b = record b {
  canceled_at = some at;
  canceled_by_id = some input.user_id;
  cancellation_reason = some reason;
  status = BookingStatus.canceled;
}

pub record CanceledBooking : Type 0 where
  pub booking_id : Uuid
  pub canceled_at : Time
  pub status : BookingStatus

abbrev pub or_time : Option Time → Time → Time
or_time none t = t
or_time (some t) _ = t

abbrev pub is_empty : Text → Bool
is_empty [] = true
is_empty (_ ∷ _) = false

-- The transaction behind the checks.
unfoldable pub cancel_row_of : CancelInput → Time → Booking → Action CanceledBooking
unfolding write
cancel_row_of input canceled_at booking = do
  count ←
      update_bookings (is_cancelable input booking.slot_id)
        (cancel_row input (trim input.reason) canceled_at)
  fail_if (count != 1) booking_transition_conflict
  updated ← reads (λ s. or_throw (find_booking input.booking_id s) (thrown record_not_found))
  write (record {
    actor_user_id = input.user_id;
    booking_id = booking.id;
    student_user_id = booking.student_user_id;
    tutor_profile_id = booking.tutor_profile_id;
    event_type = booking_canceled;
    request_id = none;
  })
  pure (record {
    booking_id = updated.id;
    canceled_at = or_time updated.canceled_at canceled_at;
    status = updated.status;
  })

-- `cancelBooking`. The row is read without a lock: `seen` is the store at that time, and other
-- requests may commit before the update.
unfoldable pub cancel_booking :
    CancelInput → Time → Time → Store → Option Value → Action CanceledBooking
unfolding cancel_row_of
cancel_booking input now canceled_at seen refusal = do
  fail_if (is_empty (trim input.reason)) missing_reason
  catch_conflict booking_conflict_codes booking_transition_conflict (
      transaction refusal do
        booking ← reads (λ _. check_cancelable input now seen)
        cancel_row_of input canceled_at booking)
