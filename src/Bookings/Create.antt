-- ===== src/Bookings/Create.antt =====
-- bookings.service.ts: `create`.
use hktutor.Shared.{false, Option, none}
use hktutor.Database.Enums.{BookingStatus, unpaid}
use hktutor.Database.Values.{Value, booking_conflict_codes}
use hktutor.Database.Schema.{Uuid, Time, Booking, booking_created}
use hktutor.Database.Exceptions.{booking_conflict}
use hktutor.Database.Actions.{
  Action, ◌>>=◌, ◌>>◌, pure, reads, insert_booking, transaction, catch_conflict,
}
use hktutor.Database.Queries.{find_slot}
use hktutor.Bookings.Selection.{
  BookingSelection, ValidSelection, assert_bookable_slot, validate_booking_selection,
}
use hktutor.Notifications.Events.{write}

-- The row that `booking.create` writes, with the defaults of the schema: the id and the time of
-- creation are the database's.
abbrev pub new_booking : Uuid → Time → BookingSelection → Uuid → ValidSelection → Booking
new_booking id created_at input tutor valid = record {
  id = id;
  student_user_id = input.student_user_id;
  tutor_profile_id = tutor;
  listing_id = valid.listing.id;
  slot_id = input.slot_id;
  status = BookingStatus.pending;
  subtotal_amount = valid.amounts.subtotal_amount;
  discount_amount = valid.amounts.discount_amount;
  net_amount = valid.amounts.net_amount;
  currency = valid.amounts.currency;
  payment_status = unpaid;
  mock_reference = none;
  payment_reference = none;
  payment_pending = false;
  paid_at = none;
  meeting_url = none;
  attendance = none;
  attendance_marked_at = none;
  canceled_by_id = none;
  cancellation_reason = none;
  canceled_at = none;
  created_at = created_at;
}

-- `create`: the transaction holds the lock of the slot's row from its first statement on, so no
-- other booking of the slot commits before its end.
unfoldable pub create_booking :
    BookingSelection → Uuid → Time → Time → Option Value → Action Booking
unfolding write
create_booking input id now created_at refusal =
    catch_conflict booking_conflict_codes booking_conflict (
      transaction refusal do
        slot ← reads (λ s. assert_bookable_slot now (find_slot input.slot_id s))
        valid ← reads (λ s. validate_booking_selection input slot s)
        booking ← insert_booking (new_booking id created_at input slot.tutor_profile_id valid)
        write (record {
          actor_user_id = input.student_user_id;
          booking_id = booking.id;
          student_user_id = input.student_user_id;
          tutor_profile_id = slot.tutor_profile_id;
          event_type = booking_created;
          request_id = none;
        })
        pure booking)
