-- ===== src/Reschedule/Close.antt =====
-- reschedule-requests.service.ts: `reject` and `withdraw`.
use hktutor.Shared.{not, Option, some, ◌==◌, ◌!=◌}
use hktutor.Database.Enums.{RescheduleRequestStatus, is_request_open, rejected, withdrawn}
use hktutor.Database.Values.{Value}
use hktutor.Database.Schema.{
  Uuid, Time, Store, RescheduleRequest, reschedule_rejected, reschedule_withdrawn,
}
use hktutor.Database.Exceptions.{
  booking_not_participant, reschedule_not_reviewer, reschedule_not_requester,
  reschedule_request_not_pending, reschedule_race_conflict,
}
use hktutor.Database.Actions.{
  Action, ◌>>=◌, ◌>>◌, pure, reads, fail_if, update_requests, transaction,
}
use hktutor.Notifications.Events.{write}
use hktutor.Reschedule.Access.{assert_active_user_with_consent, is_participant, read_locked_request}
use hktutor.Reschedule.Approve.{is_open_request}

pub record CloseResponse : Type 0 where
  pub request_id : Uuid
  pub at : Time
  pub status : RescheduleRequestStatus

abbrev pub reject_row : Uuid → Time → RescheduleRequest → RescheduleRequest
reject_row user at r = record r {
  decided_at = some at;
  reviewed_by_id = some user;
  status = rejected;
}

abbrev pub withdraw_row : Time → RescheduleRequest → RescheduleRequest
withdraw_row at r = record r { status = withdrawn; withdrawn_at = some at }

-- `reject`. No conflict of the database is mapped.
unfoldable pub reject_request : Uuid → Uuid → Time → Store → Option Value → Action CloseResponse
unfolding assert_active_user_with_consent read_locked_request write
reject_request user_id request_id now seen refusal = do
  reads (λ _. assert_active_user_with_consent user_id seen)
  transaction refusal do
    (request, booking) ← reads (read_locked_request request_id)
    fail_if (not (is_participant user_id booking)) booking_not_participant
    fail_if (request.requested_by_id == user_id) reschedule_not_reviewer
    fail_if (not (is_request_open request.status)) (reschedule_request_not_pending request.status)
    count ← update_requests (is_open_request request_id) (reject_row user_id now)
    fail_if (count != 1) reschedule_race_conflict
    write (record {
      actor_user_id = user_id;
      booking_id = request.booking_id;
      student_user_id = booking.student_user_id;
      tutor_profile_id = booking.tutor_profile_id;
      event_type = reschedule_rejected;
      request_id = some request.id;
    })
    pure (record { request_id = request.id; at = now; status = rejected })

-- `withdraw`
unfoldable pub withdraw_request : Uuid → Uuid → Time → Store → Option Value → Action CloseResponse
unfolding assert_active_user_with_consent read_locked_request write
withdraw_request user_id request_id now seen refusal = do
  reads (λ _. assert_active_user_with_consent user_id seen)
  transaction refusal do
    (request, booking) ← reads (read_locked_request request_id)
    fail_if (not (is_participant user_id booking)) booking_not_participant
    fail_if (request.requested_by_id != user_id) reschedule_not_requester
    fail_if (not (is_request_open request.status)) (reschedule_request_not_pending request.status)
    count ← update_requests (is_open_request request_id) (withdraw_row now)
    fail_if (count != 1) reschedule_race_conflict
    write (record {
      actor_user_id = user_id;
      booking_id = request.booking_id;
      student_user_id = booking.student_user_id;
      tutor_profile_id = booking.tutor_profile_id;
      event_type = reschedule_withdrawn;
      request_id = some request.id;
    })
    pure (record { request_id = request.id; at = now; status = withdrawn })
