-- ===== src/Bookings/Attendance.antt =====
-- bookings.service.ts: `updateAttendance` and `attendanceResponse`.
use hktutor.Shared.{
  Bool, true, false, not, Option, none, some, ◌&&◌, ◌==◌, ◌!=◌, leb, ltb, is_none, if◌then◌else◌,
}
use hktutor.Database.Enums.{
  BookingStatus, AttendanceStatus, is_paid, is_completed, is_confirmed, same_attendance,
}
use hktutor.Database.Values.{Value, booking_conflict_codes, record_not_found}
use hktutor.Database.Schema.{Uuid, Time, Store, Booking, AvailabilitySlot}
use hktutor.Database.Exceptions.{
  booking_not_found, booking_not_owned, payment_in_progress, booking_not_confirmed_or_completed,
  booking_not_paid, class_not_ended, booking_transition_conflict, attendance_already_recorded,
  thrown,
}
use hktutor.Database.Results.{Result, ok, throw, or_throw}
use hktutor.Database.Actions.{
  Action, ◌>>=◌, ◌>>◌, reads, fail_if, update_bookings, transaction, catch_conflict,
}
use hktutor.Database.Queries.{find_booking, find_slot, find_booking_with_slot}

pub record AttendanceRequest : Type 0 where
  pub booking_id : Uuid
  pub tutor_id : Uuid
  pub attendance : AttendanceStatus

pub record AttendanceResponse : Type 0 where
  pub attendance : AttendanceStatus
  pub attendance_marked_at : Time
  pub booking_id : Uuid
  pub idempotent_replay : Bool
  pub status : BookingStatus

-- The part of `attendanceResponse` behind the null tests.
unfoldable pub recorded_response :
    Booking
    → AttendanceStatus
    → Bool
    → Option AttendanceStatus
    → Option Time
    → Result AttendanceResponse
recorded_response b requested replay (some a) (some at) =
    if not (is_completed b.status)
    then throw booking_transition_conflict
    else if not (same_attendance a requested)
    then throw (attendance_already_recorded a)
    else ok (record {
      attendance = a;
      attendance_marked_at = at;
      booking_id = b.id;
      idempotent_replay = replay;
      status = b.status;
    })
recorded_response b requested replay _ _ = throw booking_transition_conflict

-- `attendanceResponse`
unfoldable pub attendance_response : Booking → AttendanceStatus → Bool → Result AttendanceResponse
unfolding recorded_response
attendance_response b requested replay =
    if not (is_paid b.payment_status)
    then throw booking_not_paid
    else recorded_response b requested replay b.attendance b.attendance_marked_at

-- `slot: { endAtUtc: { lte: now } }`
abbrev pub has_ended : Option AvailabilitySlot → Time → Bool
has_ended none now = false
has_ended (some slot) now = leb slot.end_at now

-- The `where` of the first recording.
abbrev pub is_unrecorded : AttendanceRequest → Time → Store → Booking → Bool
is_unrecorded input now s b =
    is_none b.attendance
    && is_none b.attendance_marked_at
    && b.id == input.booking_id
    && not b.payment_pending
    && is_paid b.payment_status
    && has_ended (find_slot b.slot_id s) now
    && is_confirmed b.status
    && b.tutor_profile_id == input.tutor_id

abbrev pub attendance_row : AttendanceRequest → Time → Booking → Booking
attendance_row input now b = record b {
  attendance = some input.attendance;
  attendance_marked_at = some now;
  status = BookingStatus.completed;
}

-- The update and what follows it: the loser of a race reads the value that the winner saved.
unfoldable pub save_attendance :
    AttendanceRequest → Time → (Booking → Bool) → Action AttendanceResponse
unfolding attendance_response
save_attendance input now unrecorded = do
  count ← update_bookings unrecorded (attendance_row input now)
  current ← reads (λ t.
      or_throw (find_booking input.booking_id t)
        (if count != 1 then booking_transition_conflict else thrown record_not_found))
  reads (λ _. attendance_response current input.attendance (count != 1))

unfoldable pub record_attendance : AttendanceRequest → Time → Action AttendanceResponse
unfolding save_attendance
record_attendance input now s = save_attendance input now (is_unrecorded input now s) s

-- `updateAttendance`. The row is first read without a lock: `seen` is the store at that time.
unfoldable pub update_attendance :
    AttendanceRequest → Time → Store → Option Value → Action AttendanceResponse
unfolding attendance_response record_attendance
update_attendance input now seen refusal =
    catch_conflict booking_conflict_codes booking_transition_conflict (
      transaction refusal do
        (booking, slot) ←
            reads (λ _. or_throw (find_booking_with_slot input.booking_id seen) booking_not_found)
        fail_if (booking.tutor_profile_id != input.tutor_id) booking_not_owned
        fail_if booking.payment_pending payment_in_progress
        fail_if (not (is_confirmed booking.status) && not (is_completed booking.status))
            (booking_not_confirmed_or_completed booking.status)
        fail_if (not (is_paid booking.payment_status)) booking_not_paid
        fail_if (ltb now slot.end_at) class_not_ended
        if is_completed booking.status
            then reads (λ _. attendance_response booking input.attendance true)
            else record_attendance input now)
