-- ===== src/Database/Exceptions.antt =====
-- The exceptions of the services: one constructor for each factory or message of the source, and
-- `thrown` for an error of the database that no handler maps.
use hktutor.Database.Enums.{BookingStatus, AttendanceStatus, RescheduleRequestStatus}
use hktutor.Database.Values.{Value}

pub data Exception : Type 0 where
  -- bookings.service.ts
  booking_not_found booking_not_owned booking_transition_conflict : Exception
  booking_not_participant booking_not_paid booking_already_paid invalid_url : Exception
  missing_reason booking_already_completed booking_already_canceled : Exception
  booking_already_expired booking_exceed_cancel_range class_not_ended : Exception
  payment_in_progress booking_conflict : Exception
  booking_not_pending meeting_link_not_editable : BookingStatus → Exception
  booking_not_confirmed_or_completed : BookingStatus → Exception
  attendance_already_recorded : AttendanceStatus → Exception
  slot_missing slot_unavailable slot_past slot_booked slot_wrong_listing : Exception
  slot_invalid_duration student_not_active student_profile_missing : Exception
  listing_missing listing_unavailable tutor_unavailable bad_request : Exception
  -- reschedule-requests.service.ts
  booking_not_confirmed : BookingStatus → Exception
  reschedule_cutoff_exceeded reschedule_already_pending reschedule_target_not_found : Exception
  reschedule_target_unavailable reschedule_target_reserved reschedule_target_wrong_tutor : Exception
  reschedule_target_past reschedule_slot_overlap reschedule_request_not_found : Exception
  reschedule_request_not_pending : RescheduleRequestStatus → Exception
  reschedule_not_approver reschedule_not_reviewer reschedule_not_requester : Exception
  reschedule_race_conflict account_not_active privacy_consent_required : Exception
  -- payments.service.ts
  payment_state_conflict payment_amount_unsupported charge_other_attempt : Exception
  charge_mismatch payment_not_configured provider_rejected : Exception
  invalid_event missing_charge_id foreign_student : Exception
  -- tutor-availability.service.ts
  invalid_time_range availability_overlap slot_not_found slot_reserved tutor_not_found : Exception
  -- notification-events.service.ts
  notification_not_participant reminder_foreign_booking : Exception
  -- reviews.service.ts
  booking_not_completed review_already_exists invalid_review_cursor : Exception
  -- auth.service.ts, access-session.ts
  missing_refresh_token invalid_refresh_token invalid_reset_link : Exception
  invalid_verification_link wrong_credentials inactive_login unverified_login : Exception
  invalid_access_token chat_denied consent_required consent_missing : Exception
  -- qualification-documents.service.ts
  document_not_found document_already_reviewed documents_forbidden : Exception
  invalid_review_reason tutor_profile_missing review_not_saved invalid_queue_limit : Exception
  invalid_queue_cursor : Exception
  thrown : Value → Exception
