-- ===== src/Bookings/Effects.antt =====
-- What the operations of bookings.service.ts leave in the tables, whatever they return.
use hktutor.Shared.{
  inl, inr, Option-cases, ◌≡◌, ◌⊎◌, ◌++◌, ◌∷◌, [], Option, arith, count_where, update_where, Text,
  trim, some,
}
use hktutor.Database.Values.{Value}
use hktutor.Database.Schema.{AvailabilitySlot, Uuid, Time, Store, Booking}
use hktutor.Database.Queries.{find_slot}
use hktutor.Bookings.Selection.{
  assert_bookable_slot, validate_booking_selection, BookingSelection, ValidSelection,
}
use hktutor.Bookings.Create.{new_booking, create_booking}
use hktutor.Bookings.Transition.{
  TutorBookingAction, Transition, apply_transition, is_undecided, transition_pending_booking,
}
use hktutor.Bookings.Cancel.{
  check_cancelable, CancelInput, is_cancelable, cancel_row, cancel_booking,
}
use hktutor.Bookings.Attendance.{
  AttendanceRequest, is_unrecorded, attendance_row, update_attendance,
}
use hktutor.Bookings.MeetingLink.{Url, MeetingLinkInput, is_linkable, update_meeting_link}
use hktutor.Database.Results.{Result, ok, Result-cases, throw}

module _ (input : TutorBookingAction) (change : Transition) (seen : Store) (refusal : Option Value)
    (s : Store) where
  pub transition-bookings :
      let t = (transition_pending_booking input change seen refusal s).1 in
      (t.bookings ≡ s.bookings)
      ⊎ (t.bookings ≡ update_where (is_undecided input) (apply_transition change) s.bookings)
        × (count_where (is_undecided input) s.bookings ≡ 1)
  unfolding transition_pending_booking
  transition-bookings = ground arith

  pub transition-others :
      let t = (transition_pending_booking input change seen refusal s).1 in
      (t.requests ≡ s.requests) × (t.attempts ≡ s.attempts) × (t.slots ≡ s.slots)
  unfolding transition_pending_booking
  transition-others = ground arith

-- The slot that a request saw the booking hold.
abbrev pub seen_slot : Result Booking → Uuid
seen_slot (throw e) = 0
seen_slot (ok b) = b.slot_id

module _ (input : CancelInput) (now canceled_at : Time) (seen : Store) (refusal : Option Value)
    (s : Store) where
  pub cancel-bookings :
      let t = (cancel_booking input now canceled_at seen refusal s).1 in
      let slot = seen_slot (check_cancelable input now seen) in
      (t.bookings ≡ s.bookings)
      ⊎ (t.bookings
          ≡ update_where
              (is_cancelable input slot)
              (cancel_row input (trim input.reason) canceled_at)
              s.bookings)
        × (count_where (is_cancelable input slot) s.bookings ≡ 1)
  unfolding cancel_booking
  cancel-bookings = ground arith

  pub cancel-others :
      let t = (cancel_booking input now canceled_at seen refusal s).1 in
      (t.requests ≡ s.requests) × (t.attempts ≡ s.attempts) × (t.slots ≡ s.slots)
  unfolding cancel_booking
  cancel-others = ground arith

module _ (input : AttendanceRequest) (now : Time) (seen : Store) (refusal : Option Value)
    (s : Store) where
  pub attendance-bookings :
      let t = (update_attendance input now seen refusal s).1 in
      (t.bookings ≡ s.bookings)
      ⊎ (t.bookings
          ≡ update_where (is_unrecorded input now s) (attendance_row input now) s.bookings)
  unfolding update_attendance
  attendance-bookings = ground arith

  pub attendance-others :
      let t = (update_attendance input now seen refusal s).1 in
      (t.requests ≡ s.requests) × (t.attempts ≡ s.attempts) × (t.slots ≡ s.slots)
  unfolding update_attendance
  attendance-others = ground arith

module _ (parse_url : Text → Option Url) (input : MeetingLinkInput) (seen : Store)
    (refusal : Option Value) (s : Store) where
  pub link-bookings :
      let t = (update_meeting_link parse_url input seen refusal s).1 in
      (t.bookings ≡ s.bookings)
      ⊎ (t.bookings
          ≡ update_where
              (is_linkable input)
              (λ b. record b { meeting_url = some input.meeting_url })
              s.bookings)
  unfolding update_meeting_link
  link-bookings = ground arith

  pub link-others :
      let t = (update_meeting_link parse_url input seen refusal s).1 in
      (t.requests ≡ s.requests) × (t.attempts ≡ s.attempts) × (t.slots ≡ s.slots)
  unfolding update_meeting_link
  link-others = ground arith

module _ (input : BookingSelection) (id : Uuid) (now created_at : Time) (refusal : Option Value)
    (s : Store) where
  pub create-bookings :
      let t = (create_booking input id now created_at refusal s).1 in
      (t.bookings ≡ s.bookings)
      ⊎ ((slot : AvailabilitySlot) × (valid : ValidSelection) × (t.bookings
            ≡ s.bookings ++ new_booking id created_at input slot.tutor_profile_id valid ∷ [])
          × (assert_bookable_slot now (find_slot input.slot_id s) ≡ ok slot)
          × (validate_booking_selection input slot s ≡ ok valid))
  unfolding create_booking
  create-bookings = elim (Result-cases (assert_bookable_slot now (find_slot input.slot_id s))) [
    | inr (e, p) ↦ inl (ground arith)
    | inl (slot, p) ↦ elim (Result-cases (validate_booking_selection input slot s)) [
      | inr (e, q) ↦ inl (ground arith)
      | inl (valid, q) ↦ elim (Option-cases refusal) [
        | inl none_refused ↦ inr (slot, valid, ground arith, p, q)
        | inr (v, refused) ↦ inl (ground arith)
      ]
    ]
  ]

  pub create-others :
      let t = (create_booking input id now created_at refusal s).1 in
      (t.requests ≡ s.requests) × (t.attempts ≡ s.attempts) × (t.slots ≡ s.slots)
  unfolding create_booking
  create-others = ground arith
