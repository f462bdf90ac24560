-- ===== src/Bookings/Outcomes.antt =====
-- What a handler of bookings.service.ts that returns has checked and written.
use hktutor.Shared.{
  inl, inr, some, Option, Text, ◌≡◌, ◌⊎◌, arith, false, ◌+◌, ◌*◌, ◌≤◌, count_where, update_where,
  trim, Option-cases, Bool-cases, ◌==◌, ==→eq,
}
use hktutor.Database.Enums.{BookingStatus, paid, unpaid}
use hktutor.Bookings.Cancel.{cancel_booking, CanceledBooking, is_cancelable, cancel_row}
use hktutor.Bookings.ClassDetail.{get_booking_class_detail, ClassDetail}
use hktutor.Bookings.Cancel.Checks.{check_cancelable, CancelInput}
use hktutor.Database.Schema.{Uuid, Store, Time, Booking, AvailabilitySlot}
use hktutor.Database.Values.{Value}
use hktutor.Database.Results.{ok}
use hktutor.Database.Queries.{find_booking_with_slot}
use hktutor.Bookings.Amounts.{milliseconds_per_hour}

-- A cancellation that returns: the booking, as it was read, was a participant's, unpaid, not locked
-- for payment, and at least 24 hours ahead. When it is written, one row is still unpaid, unlocked,
-- pending or confirmed and in the slot of that check; that row alone changes.
pub cancel_booking-ok :
    (input : CancelInput) (now canceled_at : Time) (seen s t : Store) (refusal : Option Value)
    {r : CanceledBooking}
    → cancel_booking input now canceled_at seen refusal s ≡ (ok r, t)
    → (b : Booking) × (slot : AvailabilitySlot) × (find_booking_with_slot input.booking_id seen
        ≡ some (b, slot))
      × ((b.student_user_id ≡ input.user_id) ⊎ (b.tutor_profile_id ≡ input.user_id))
      × (b.payment_status ≡ unpaid)
      × (b.payment_pending ≡ false)
      × (now + 24 * milliseconds_per_hour ≤ slot.start_at)
      × (count_where (is_cancelable input b.slot_id) s.bookings ≡ 1)
      × (t.bookings
          ≡ update_where
              (is_cancelable input b.slot_id)
              (cancel_row input (trim input.reason) canceled_at)
              s.bookings)
unfolding cancel_booking check_cancelable
cancel_booking-ok input now canceled_at seen s t refusal h =
    elim (Option-cases (find_booking_with_slot input.booking_id seen)) [
      | inl missing ↦ ground arith
      | inr ((b, slot), found) ↦ (
        b,
        slot,
        found,
        elim (Bool-cases (b.student_user_id == input.user_id)) [
          | inl student ↦ inl (==→eq b.student_user_id input.user_id student)
          | inr other ↦ inr (==→eq b.tutor_profile_id input.user_id (ground arith))
        ],
        ground arith,
        ground arith,
        ground arith,
        ground arith,
        ground arith,
      )
    ]

-- The link of a class is shown only while the booking is paid and confirmed or completed.
pub get_booking_class_detail-link :
    (i : Uuid) (s : Store) {d : ClassDetail} {url : Text}
    → get_booking_class_detail i s ≡ ok d
    → d.meeting_url ≡ some url
    → (d.payment_status ≡ paid)
      × ((d.status ≡ BookingStatus.confirmed) ⊎ (d.status ≡ BookingStatus.completed))
unfolding get_booking_class_detail
get_booking_class_detail-link i s h shown = ground arith
