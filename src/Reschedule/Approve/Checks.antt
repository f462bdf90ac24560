-- ===== src/Reschedule/Approve/Checks.antt =====
-- reschedule-requests.service.ts: the checks of `approve` under the locks of the booking and of the
-- target slot.
use hktutor.Shared.{not, ◌+◌, ◌||◌, ◌==◌, ◌!=◌, ltb, leb, is_some}
use hktutor.Database.Enums.{is_confirmed, is_request_open}
use hktutor.Database.Schema.{Uuid, Time, Store, Booking, AvailabilitySlot, RescheduleRequest}
use hktutor.Database.Exceptions.{
  booking_not_found, booking_not_participant, booking_not_confirmed, reschedule_cutoff_exceeded,
  reschedule_slot_overlap, reschedule_target_unavailable, reschedule_target_wrong_tutor,
  reschedule_target_past, reschedule_target_reserved, reschedule_not_approver,
  reschedule_request_not_pending, reschedule_race_conflict,
}
use hktutor.Database.Results.{Result, ok, or_throw, throw_if, ◌>>=◌, ◌>>◌}
use hktutor.Database.Queries.{find_slot, is_slot_reserved}
use hktutor.Reschedule.Access.{reschedule_cutoff, overlaps, is_participant, read_locked_request}

unfoldable pub check_target :
    RescheduleRequest → Booking → AvailabilitySlot → Time → Store → Result AvailabilitySlot
check_target request booking slot now s = do
  throw_if (ltb slot.start_at (now + reschedule_cutoff)) reschedule_cutoff_exceeded
  target ← or_throw (find_slot request.requested_slot_id s) reschedule_target_unavailable
  throw_if (is_some target.deleted_at) reschedule_target_unavailable
  throw_if (target.tutor_profile_id != booking.tutor_profile_id) reschedule_target_wrong_tutor
  throw_if (leb target.start_at now) reschedule_target_past
  throw_if (target.id == request.from_slot_id || overlaps target slot) reschedule_slot_overlap
  throw_if (is_slot_reserved target.id s) reschedule_target_reserved
  ok target

unfoldable pub check_approval :
    Uuid → Uuid → Time → Store → Result (RescheduleRequest × Booking × AvailabilitySlot)
unfolding read_locked_request check_target
check_approval user_id request_id now s = do
  (request, booking) ← read_locked_request request_id s
  throw_if (not (is_participant user_id booking)) booking_not_participant
  throw_if (request.requested_by_id == user_id) reschedule_not_approver
  throw_if (not (is_request_open request.status)) (reschedule_request_not_pending request.status)
  throw_if (not (is_confirmed booking.status)) (booking_not_confirmed booking.status)
  throw_if (booking.slot_id != request.from_slot_id) reschedule_race_conflict
  slot ← or_throw (find_slot booking.slot_id s) booking_not_found
  target ← check_target request booking slot now s
  ok (request, booking, target)
