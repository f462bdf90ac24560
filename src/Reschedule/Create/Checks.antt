-- ===== src/Reschedule/Create/Checks.antt =====
-- reschedule-requests.service.ts: the checks of `create` under the booking's lock.
use hktutor.Shared.{Bool, not, Option, ◌+◌, ◌&&◌, ◌||◌, ◌==◌, ◌!=◌, any, ltb, leb, is_some, Text}
use hktutor.Database.Enums.{Role, is_student, is_tutor, is_confirmed, is_request_open}
use hktutor.Database.Schema.{Uuid, Time, Store, Booking, RescheduleRequest}
use hktutor.Database.Exceptions.{
  booking_not_found, booking_not_participant, booking_not_confirmed, reschedule_cutoff_exceeded,
  reschedule_already_pending, reschedule_slot_overlap, reschedule_target_not_found,
  reschedule_target_unavailable, reschedule_target_wrong_tutor, reschedule_target_past,
  reschedule_target_reserved,
}
use hktutor.Database.Results.{Result, ok, or_throw, throw_if, ◌>>=◌, ◌>>◌}
use hktutor.Database.Queries.{find_slot, find_booking_with_slot, is_slot_reserved}
use hktutor.Reschedule.Access.{reschedule_cutoff, overlaps}

pub record RescheduleInput : Type 0 where
  pub user_id : Uuid
  pub user_role : Role
  pub booking_id : Uuid
  pub target_slot_id : Uuid
  pub reason : Option Text

-- `bookingId`, and `status: PENDING`
abbrev pub is_open_of : Uuid → RescheduleRequest → Bool
is_open_of booking r = r.booking_id == booking && is_request_open r.status

-- The requester is the student or the tutor of the booking, in that role.
abbrev pub may_request : RescheduleInput → Booking → Bool
may_request input b =
    is_student input.user_role && b.student_user_id == input.user_id
    || is_tutor input.user_role && b.tutor_profile_id == input.user_id

unfoldable pub check_request : RescheduleInput → Time → Store → Result Booking
check_request input now s = do
  (booking, slot) ← or_throw (find_booking_with_slot input.booking_id s) booking_not_found
  throw_if (not (may_request input booking)) booking_not_participant
  throw_if (not (is_confirmed booking.status)) (booking_not_confirmed booking.status)
  throw_if (ltb slot.start_at (now + reschedule_cutoff)) reschedule_cutoff_exceeded
  throw_if (any (is_open_of booking.id) s.requests) reschedule_already_pending
  throw_if (input.target_slot_id == booking.slot_id) reschedule_slot_overlap
  target ← or_throw (find_slot input.target_slot_id s) reschedule_target_not_found
  throw_if (is_some target.deleted_at) reschedule_target_unavailable
  throw_if (target.tutor_profile_id != booking.tutor_profile_id) reschedule_target_wrong_tutor
  throw_if (leb target.start_at now) reschedule_target_past
  throw_if (overlaps target slot) reschedule_slot_overlap
  throw_if (is_slot_reserved target.id s) reschedule_target_reserved
  ok booking
