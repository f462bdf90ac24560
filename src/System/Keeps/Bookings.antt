-- ===== src/System/Keeps/Bookings.antt =====
-- The operations of bookings.service.ts keep the invariant.
use hktutor.Shared.{
  refl, Option, Text, ◌≡◌, true, arith, inl, inr, some, trim, count_where, any-eq_false, ◌+◌,
}
use hktutor.Bookings.Transition.{
  to_confirmed, to_canceled, Transition, TutorBookingAction, apply_transition, is_undecided,
  transition_pending_booking,
}
use hktutor.Database.Schema.{Store, Booking, Uuid, Time, AvailabilitySlot}
use hktutor.System.Invariant.{IsConsistent, BookingIsValid, has_booking_id}
use hktutor.Bookings.Cancel.Checks.{CancelInput, check_cancelable}
use hktutor.Bookings.Attendance.{
  AttendanceRequest, update_attendance, is_unrecorded, attendance_row,
}
use hktutor.Database.Values.{Value}
use hktutor.Bookings.MeetingLink.{Url, MeetingLinkInput, update_meeting_link, is_linkable}
use hktutor.Bookings.Cancel.{cancel_booking, is_cancelable, cancel_row}
use hktutor.Database.Queries.{reserves}
use hktutor.Bookings.Effects.{
  attendance-others, cancel-others, transition-others, attendance-bookings, cancel-bookings,
  link-others, transition-bookings, link-bookings, seen_slot, create-others, create-bookings,
}
use hktutor.System.Keeps.Updates.{update-Consistent, insert-Consistent}
use hktutor.Bookings.Selection.{BookingSelection, validate_booking_selection, ValidSelection}
use hktutor.Database.Results.{ok}
use hktutor.Bookings.Create.{create_booking, new_booking}

transition_valid :
    (input : TutorBookingAction) (k : Transition) (b : Booking)
    → is_undecided input b ≡ true
    → BookingIsValid b
    → BookingIsValid (apply_transition k b)
transition_valid input to_confirmed b h v = ground arith
transition_valid input (to_canceled at by reason) b h v = ground arith

transition_same_id : (k : Transition) (b : Booking) → (apply_transition k b).id ≡ b.id
transition_same_id to_confirmed b = refl
transition_same_id (to_canceled at by reason) b = refl

transition_free :
    (input : TutorBookingAction) (k : Transition) (slot : Uuid) (b : Booking)
    → is_undecided input b ≡ true
    → reserves slot (apply_transition k b) ≡ true
    → reserves slot b ≡ true
transition_free input to_confirmed slot b h r = ground arith
transition_free input (to_canceled at by reason) slot b h r = ground arith

transition_same_lock :
    (input : TutorBookingAction) (k : Transition) (b : Booking)
    → is_undecided input b ≡ true
    → (apply_transition k b).payment_pending ≡ b.payment_pending
transition_same_lock input to_confirmed b h = refl
transition_same_lock input (to_canceled at by reason) b h = refl

-- A selection that is valid has found no booking of its slot.
validate_booking_selection-free :
    (input : BookingSelection) (slot : AvailabilitySlot) (s : Store) {valid : ValidSelection}
    → validate_booking_selection input slot s ≡ ok valid
    → count_where (reserves input.slot_id) s.bookings ≡ 0
unfolding validate_booking_selection
validate_booking_selection-free input slot s h =
    any-eq_false (reserves input.slot_id) s.bookings (ground arith)

validate_booking_selection-amounts :
    (input : BookingSelection) (slot : AvailabilitySlot) (s : Store) {valid : ValidSelection}
    → validate_booking_selection input slot s ≡ ok valid
    → valid.amounts.net_amount + valid.amounts.discount_amount ≡ valid.amounts.subtotal_amount
unfolding validate_booking_selection
validate_booking_selection-amounts input slot s h = ground arith

new_booking-IsValid :
    (input : BookingSelection) (id : Uuid) (created_at : Time) (slot : AvailabilitySlot)
    (valid : ValidSelection) (s : Store)
    → validate_booking_selection input slot s ≡ ok valid
    → BookingIsValid (new_booking id created_at input slot.tutor_profile_id valid)
new_booking-IsValid input id created_at slot valid s h =
    ground (arith, validate_booking_selection-amounts input slot s h)

module _ (s : Store) (c : IsConsistent s) where
  pub transition-IsConsistent :
      (input : TutorBookingAction) (change : Transition) (seen : Store) (refusal : Option Value)
      → IsConsistent (transition_pending_booking input change seen refusal s).1
  transition-IsConsistent input change seen refusal =
      let (same_requests, same_attempts, _) = transition-others input change seen refusal s in
      elim (transition-bookings input change seen refusal s) [
        | inl same ↦ rw (same, same_requests, same_attempts) c
        | inr (changed, _) ↦
            rw (changed, same_requests, same_attempts)
              (update-Consistent (is_undecided input) (apply_transition change)
                (transition_valid input change) (transition_same_id change)
                (transition_free input change) (transition_same_lock input change) c)
      ]

  pub cancel-IsConsistent :
      (input : CancelInput) (now canceled_at : Time) (seen : Store) (refusal : Option Value)
      → IsConsistent (cancel_booking input now canceled_at seen refusal s).1
  cancel-IsConsistent input now canceled_at seen refusal =
      let (same_requests, same_attempts, _) = cancel-others input now canceled_at seen refusal s in
      elim (cancel-bookings input now canceled_at seen refusal s) [
        | inl same ↦ rw (same, same_requests, same_attempts) c
        | inr (changed, _) ↦
            rw (changed, same_requests, same_attempts)
              (update-Consistent (is_cancelable input (seen_slot (check_cancelable input now seen)))
                (cancel_row input (trim input.reason) canceled_at) (λ b h v. ground arith)
                (λ b. refl) (λ slot b h r. ground arith) (λ b h. refl) c)
      ]

  pub attendance-IsConsistent :
      (input : AttendanceRequest) (now : Time) (seen : Store) (refusal : Option Value)
      → IsConsistent (update_attendance input now seen refusal s).1
  attendance-IsConsistent input now seen refusal =
      let (same_requests, same_attempts, _) = attendance-others input now seen refusal s in
      elim (attendance-bookings input now seen refusal s) [
        | inl same ↦ rw (same, same_requests, same_attempts) c
        | inr changed ↦
            rw (changed, same_requests, same_attempts)
              (update-Consistent (is_unrecorded input now s) (attendance_row input now)
                (λ b h v. ground arith) (λ b. refl) (λ slot b h r. ground arith) (λ b h. refl) c)
      ]

  pub link-IsConsistent :
      (parse_url : Text → Option Url) (input : MeetingLinkInput) (seen : Store)
      (refusal : Option Value)
      → IsConsistent (update_meeting_link parse_url input seen refusal s).1
  link-IsConsistent parse_url input seen refusal =
      let (same_requests, same_attempts, _) = link-others parse_url input seen refusal s in
      elim (link-bookings parse_url input seen refusal s) [
        | inl same ↦ rw (same, same_requests, same_attempts) c
        | inr changed ↦
            rw (changed, same_requests, same_attempts)
              (update-Consistent (is_linkable input)
                (λ b. record b { meeting_url = some input.meeting_url }) (λ b h v. ground arith)
                (λ b. refl) (λ slot b h r. ground arith) (λ b h. refl) c)
      ]

  -- The id is new, which `randomUUID` and the primary key provide.
  pub create-IsConsistent :
      (input : BookingSelection) (id : Uuid) (now created_at : Time) (refusal : Option Value)
      → count_where (has_booking_id id) s.bookings ≡ 0
      → IsConsistent (create_booking input id now created_at refusal s).1
  create-IsConsistent input id now created_at refusal fresh =
      let (same_requests, same_attempts, _) = create-others input id now created_at refusal s in
      elim (create-bookings input id now created_at refusal s) [
        | inl same ↦ rw (same, same_requests, same_attempts) c
        | inr (slot, valid, added, _, checked) ↦
            rw (added, same_requests, same_attempts)
              (insert-Consistent (new_booking id created_at input slot.tutor_profile_id valid)
                (new_booking-IsValid input id created_at slot valid s checked)
                (validate_booking_selection-free input slot s checked) fresh refl c)
      ]
