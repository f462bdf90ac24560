-- ===== src/Reschedule/Create.antt =====
-- reschedule-requests.service.ts: `create`.
pub mod Checks
pub use Checks.{RescheduleInput}
unfoldable pub use Checks.{is_open_of, may_request, check_request}
use hktutor.Shared.{
  Bool, not, Option, none, some, [], ◌∷◌, ◌+◌, ◌&&◌, ◌||◌, ◌==◌, ◌!=◌, any, ltb, leb, is_some, Text,
}
use hktutor.Database.Enums.{
  Role, RescheduleRequestStatus, is_student, is_tutor, is_confirmed, is_request_open,
}
use hktutor.Database.Values.{Value, reschedule_conflict_codes}
use hktutor.Database.Schema.{Uuid, Time, Store, Booking, RescheduleRequest, reschedule_requested}
use hktutor.Database.Exceptions.{
  booking_not_found, booking_not_participant, booking_not_confirmed, reschedule_cutoff_exceeded,
  reschedule_already_pending, reschedule_slot_overlap, reschedule_target_not_found,
  reschedule_target_unavailable, reschedule_target_wrong_tutor, reschedule_target_past,
  reschedule_target_reserved,
}
use hktutor.Database.Results.{ok, or_throw}
use hktutor.Database.Actions.{
  Action, ◌>>=◌, ◌>>◌, pure, reads, fail_if, insert_request, transaction, catch_conflict,
}
use hktutor.Database.Queries.{find_slot, find_booking_with_slot, is_slot_reserved}
use hktutor.Notifications.Events.{write}
use hktutor.Bookings.Transition.{reason_or}
use hktutor.Reschedule.Access.{reschedule_cutoff, assert_active_user_with_consent, overlaps}

-- "Reschedule requested"
abbrev pub default_reschedule_reason : Text
default_reschedule_reason =
    b'R' ∷ b'e' ∷ b's' ∷ b'c' ∷ b'h' ∷ b'e' ∷ b'd' ∷ b'u' ∷ b'l' ∷ b'e' ∷ b' ' ∷ b'r' ∷ b'e' ∷ b'q'
    ∷ b'u' ∷ b'e' ∷ b's' ∷ b't' ∷ b'e' ∷ b'd' ∷ []

abbrev pub new_request : Uuid → Time → RescheduleInput → Booking → RescheduleRequest
new_request id requested_at input b = record {
  id = id;
  booking_id = b.id;
  requested_by_id = input.user_id;
  from_slot_id = b.slot_id;
  requested_slot_id = input.target_slot_id;
  reason = reason_or input.reason default_reschedule_reason;
  status = RescheduleRequestStatus.pending;
  reviewed_by_id = none;
  requested_at = requested_at;
  decided_at = none;
  withdrawn_at = none;
}

-- `create`. `seen` is the store when the user was read, ahead of the transaction, which holds the
-- lock of the booking's row from its first statement on.
unfoldable pub create_request :
    RescheduleInput → Uuid → Time → Time → Store → Option Value → Action RescheduleRequest
unfolding write
create_request input id now requested_at seen refusal = do
  reads (λ _. assert_active_user_with_consent input.user_id seen)
  catch_conflict reschedule_conflict_codes reschedule_already_pending (
      transaction refusal do
        booking ← reads (check_request input now)
        created ← insert_request (new_request id requested_at input booking)
        write (record {
          actor_user_id = input.user_id;
          booking_id = booking.id;
          student_user_id = booking.student_user_id;
          tutor_profile_id = booking.tutor_profile_id;
          event_type = reschedule_requested;
          request_id = some created.id;
        })
        pure created)
