-- ===== src/Reschedule/Approve.antt =====
-- reschedule-requests.service.ts: `approve`.
pub mod Checks
unfoldable pub use Checks.{check_approval}
use hktutor.Shared.{Bool, not, Option, some, ◌+◌, ◌&&◌, ◌||◌, ◌==◌, ◌!=◌, ltb, leb, is_some}
use hktutor.Database.Enums.{RescheduleRequestStatus, is_confirmed, is_request_open, approved}
use hktutor.Database.Values.{Value, reschedule_conflict_codes, record_not_found}
use hktutor.Database.Schema.{
  Uuid, Time, Store, Booking, AvailabilitySlot, RescheduleRequest, reschedule_approved,
}
use hktutor.Database.Exceptions.{
  booking_not_found, booking_not_participant, booking_not_confirmed, reschedule_cutoff_exceeded,
  reschedule_slot_overlap, reschedule_target_unavailable, reschedule_target_wrong_tutor,
  reschedule_target_past, reschedule_target_reserved, reschedule_not_approver,
  reschedule_request_not_pending, reschedule_race_conflict, thrown,
}
use hktutor.Database.Results.{ok, or_throw}
use hktutor.Database.Actions.{
  Action, ◌>>=◌, ◌>>◌, pure, reads, fail_if, update_bookings, update_requests, transaction,
  catch_conflict,
}
use hktutor.Database.Queries.{find_slot, find_booking, is_slot_reserved}
use hktutor.Notifications.Events.{write}
use hktutor.Reschedule.Access.{
  reschedule_cutoff, assert_active_user_with_consent, overlaps, is_participant, read_locked_request,
}

-- The `where` of a decision: `id`, and `status: PENDING`
abbrev pub is_open_request : Uuid → RescheduleRequest → Bool
is_open_request i r = r.id == i && is_request_open r.status

abbrev pub approve_row : Uuid → Time → RescheduleRequest → RescheduleRequest
approve_row user at r = record r {
  decided_at = some at;
  reviewed_by_id = some user;
  status = approved;
}

-- The `where` of the booking's move.
abbrev pub is_movable : RescheduleRequest → Booking → Bool
is_movable r b = b.id == r.booking_id && b.slot_id == r.from_slot_id && is_confirmed b.status

abbrev pub move_row : Uuid → Booking → Booking
move_row slot b = record b { slot_id = slot }

pub record ApproveResponse : Type 0 where
  pub booking : Booking
  pub new_slot : AvailabilitySlot
  pub request_id : Uuid
  pub status : RescheduleRequestStatus

-- `approve`. `seen` is the store when the user was read; the transaction holds the locks of the
-- booking's row and of the target slot's row.
unfoldable pub approve_request :
    Uuid → Uuid → Time → Time → Store → Option Value → Action ApproveResponse
unfolding write
approve_request user_id request_id now decided_at seen refusal = do
  reads (λ _. assert_active_user_with_consent user_id seen)
  catch_conflict reschedule_conflict_codes reschedule_target_reserved (
      transaction refusal do
        (request, booking, target) ← reads (check_approval user_id request_id now)
        decided ← update_requests (is_open_request request_id) (approve_row user_id decided_at)
        fail_if (decided != 1) reschedule_race_conflict
        moved ← update_bookings (is_movable request) (move_row request.requested_slot_id)
        fail_if (moved != 1) reschedule_race_conflict
        updated ←
            reads (λ s. or_throw (find_booking request.booking_id s) (thrown record_not_found))
        write (record {
          actor_user_id = user_id;
          booking_id = booking.id;
          student_user_id = booking.student_user_id;
          tutor_profile_id = booking.tutor_profile_id;
          event_type = reschedule_approved;
          request_id = some request.id;
        })
        pure (record {
          booking = updated;
          new_slot = target;
          request_id = request.id;
          status = approved;
        }))
