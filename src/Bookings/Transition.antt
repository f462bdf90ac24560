-- ===== src/Bookings/Transition.antt =====
-- bookings.service.ts: `confirmTutorBooking`, `rejectTutorBooking`, `transitionPendingBooking`.
use hktutor.Shared.{
  Bool, not, Option, none, some, [], ◌∷◌, ◌&&◌, ◌==◌, ◌!=◌, Text, trim, if◌then◌else◌, ltb,
}
use hktutor.Database.Enums.{BookingStatus, is_pending, is_confirmed}
use hktutor.Database.Values.{record_not_found, Value, booking_conflict_codes}
use hktutor.Database.Schema.{Uuid, Time, Store, Booking, booking_confirmed, booking_rejected}
use hktutor.Database.Exceptions.{
  thrown, booking_not_found, booking_not_owned, booking_not_pending, booking_transition_conflict,
}
use hktutor.Database.Results.{ok, or_throw}
use hktutor.Database.Actions.{
  Action, ◌>>=◌, ◌>>◌, pure, reads, fail_if, update_bookings, transaction, catch_conflict,
}
use hktutor.Database.Queries.{find_booking, reservations}
use hktutor.Notifications.Events.{write}

pub record TutorBookingAction : Type 0 where
  pub booking_id : Uuid
  pub tutor_user_id : Uuid

-- What the transition writes: `status`, and for a rejection the three cancellation columns.
pub data Transition : Type 0 where
  to_confirmed : Transition
  to_canceled : Time → Uuid → Text → Transition

abbrev pub apply_transition : Transition → Booking → Booking
apply_transition to_confirmed b = record b { status = BookingStatus.confirmed }
apply_transition (to_canceled at by reason) b = record b {
  canceled_at = some at;
  canceled_by_id = some by;
  cancellation_reason = some reason;
  status = BookingStatus.canceled;
}

pub data SlotStatus : Type 0 where
  available reserved : SlotStatus

pub record TutorBookingActionResponse : Type 0 where
  pub booking_id : Uuid
  pub canceled_at : Option Time
  pub slot_status : SlotStatus
  pub status : BookingStatus

-- The `where` of the transition: the loser of a race between two decisions meets no row.
abbrev pub is_undecided : TutorBookingAction → Booking → Bool
is_undecided input b =
    b.id == input.booking_id && is_pending b.status && b.tutor_profile_id == input.tutor_user_id

-- `transitionPendingBooking`. `seen` is the store when the row was read, ahead of the transaction:
-- other requests may commit in between.
unfoldable pub transition_pending_booking :
    TutorBookingAction → Transition → Store → Option Value → Action TutorBookingActionResponse
unfolding write
transition_pending_booking input change seen refusal = do
  booking ← reads (λ _. or_throw (find_booking input.booking_id seen) booking_not_found)
  fail_if (booking.tutor_profile_id != input.tutor_user_id) booking_not_owned
  fail_if (not (is_pending booking.status)) (booking_not_pending booking.status)
  catch_conflict booking_conflict_codes booking_transition_conflict (
      transaction refusal do
        count ← update_bookings (is_undecided input) (apply_transition change)
        fail_if (count != 1) booking_transition_conflict
        updated ← reads (λ s. or_throw (find_booking input.booking_id s) (thrown record_not_found))
        active ← reads (λ s. ok (reservations updated.slot_id s))
        write (record {
          actor_user_id = input.tutor_user_id;
          booking_id = updated.id;
          student_user_id = booking.student_user_id;
          tutor_profile_id = booking.tutor_profile_id;
          event_type = if is_confirmed updated.status then booking_confirmed else booking_rejected;
          request_id = none;
        })
        pure (record {
          booking_id = updated.id;
          canceled_at = updated.canceled_at;
          slot_status = if ltb 0 active then reserved else available;
          status = updated.status;
        }))

-- `confirmTutorBooking`
unfoldable pub confirm_tutor_booking :
    TutorBookingAction → Store → Option Value → Action TutorBookingActionResponse
unfolding transition_pending_booking
confirm_tutor_booking input seen refusal =
    transition_pending_booking input to_confirmed seen refusal

-- "Rejected by the tutor"
abbrev pub default_rejection_reason : Text
default_rejection_reason =
    b'R' ∷ b'e' ∷ b'j' ∷ b'e' ∷ b'c' ∷ b't' ∷ b'e' ∷ b'd' ∷ b' ' ∷ b'b' ∷ b'y' ∷ b' ' ∷ b't' ∷ b'h'
    ∷ b'e' ∷ b' ' ∷ b't' ∷ b'u' ∷ b't' ∷ b'o' ∷ b'r' ∷ []

abbrev pub non_empty_or : Text → Text → Text
non_empty_or [] default = default
non_empty_or (c ∷ cs) default = c ∷ cs

abbrev pub reason_or : Option Text → Text → Text
reason_or none default = default
reason_or (some t) default = non_empty_or (trim t) default

-- `rejectTutorBooking`, at the time of `canceledAt`.
unfoldable pub reject_tutor_booking :
    TutorBookingAction
    → Option Text
    → Time
    → Store
    → Option Value
    → Action TutorBookingActionResponse
unfolding transition_pending_booking
reject_tutor_booking input reason now seen refusal =
    transition_pending_booking input
      (to_canceled now input.tutor_user_id (reason_or reason default_rejection_reason)) seen refusal
