-- ===== src/System/Invariant.antt =====
-- What holds of the tables between two transactions.
use hktutor.Shared.{
  ◌≡◌, List, Bool, true, All, ◌==◌, count_where, ◌&&◌, ◌≤◌, none, ◌⊎◌, is_some, ◌+◌, ◌≢◌, some,
}
use hktutor.Database.Schema.{Booking, RescheduleRequest, Store, Uuid, PaymentAttempt}
use hktutor.Database.Enums.{
  is_attempt_active, BookingStatus, RescheduleRequestStatus, unpaid, approved, paid, rejected,
  withdrawn,
}
use hktutor.Database.Queries.{reserves}
use hktutor.Reschedule.Create.Checks.{is_open_of}
use hktutor.Payments.Settlement.{has_id}

-- Whether an attempt to pay for the booking is under way.
abbrev pub is_active_of : Uuid → PaymentAttempt → Bool
is_active_of i a = a.booking_id == i && is_attempt_active a.status

-- Whether the booking waits for its payment.
abbrev pub is_locked : Uuid → Booking → Bool
is_locked i b = b.id == i && b.payment_pending

abbrev pub has_booking_id : Uuid → Booking → Bool
has_booking_id i b = b.id == i

pub record BookingIsValid (b : Booking) : Type 0 where
  pub locked_confirmed :
      b.payment_pending ≡ true → (b.status ≡ BookingStatus.confirmed) × (b.payment_status ≡ unpaid)
  pub paid_kept :
      b.payment_status ≡ paid
      → (b.status ≡ BookingStatus.confirmed) ⊎ (b.status ≡ BookingStatus.completed)
  pub completed_recorded :
      b.status ≡ BookingStatus.completed
      → (b.payment_status ≡ paid)
        × (is_some b.attendance ≡ true)
        × (is_some b.attendance_marked_at ≡ true)
  pub recorded_completed :
      (is_some b.attendance ≡ true) ⊎ (is_some b.attendance_marked_at ≡ true)
      → b.status ≡ BookingStatus.completed
  pub canceled_recorded :
      b.status ≡ BookingStatus.canceled
      → (is_some b.canceled_at ≡ true)
        × (is_some b.canceled_by_id ≡ true)
        × (is_some b.cancellation_reason ≡ true)
  pub linked_paid : is_some b.meeting_url ≡ true → b.payment_status ≡ paid
  pub referenced_paid : is_some b.payment_reference ≡ true → b.payment_status ≡ paid
  pub amounts_add_up : b.net_amount + b.discount_amount ≡ b.subtotal_amount

pub record RequestIsValid (r : RescheduleRequest) : Type 0 where
  pub open_undecided :
      r.status ≡ RescheduleRequestStatus.pending
      → (r.reviewed_by_id ≡ none) × (r.decided_at ≡ none) × (r.withdrawn_at ≡ none)
  pub decided_by_other :
      (r.status ≡ approved) ⊎ (r.status ≡ rejected)
      → (is_some r.reviewed_by_id ≡ true)
        × (r.reviewed_by_id ≢ some r.requested_by_id)
        × (is_some r.decided_at ≡ true)
        × (r.withdrawn_at ≡ none)
  pub withdrawn_undecided :
      r.status ≡ withdrawn
      → (r.reviewed_by_id ≡ none) × (r.decided_at ≡ none) × (is_some r.withdrawn_at ≡ true)
  pub slots_apart : r.from_slot_id ≢ r.requested_slot_id

pub record Consistent (bookings : List Booking) (requests : List RescheduleRequest)
    (attempts : List PaymentAttempt) : Type 0 where
  pub bookings_valid : All BookingIsValid bookings
  pub requests_valid : All RequestIsValid requests
  -- No two pending or confirmed bookings hold one slot.
  pub slots_exclusive : (slot : Uuid) → count_where (reserves slot) bookings ≤ 1
  pub one_open_request : (booking : Uuid) → count_where (is_open_of booking) requests ≤ 1
  pub booking_ids : (i : Uuid) → count_where (has_booking_id i) bookings ≤ 1
  pub attempt_ids : (i : Uuid) → count_where (has_id i) attempts ≤ 1
  -- A booking is locked for payment exactly while an attempt is under way.
  pub locked_by_attempt :
      (i : Uuid) → count_where (is_active_of i) attempts ≡ count_where (is_locked i) bookings

abbrev pub IsConsistent : Store → Type 0
IsConsistent s = Consistent s.bookings s.requests s.attempts
