-- ===== src/Bookings/Races.antt =====
-- Two decisions on one booking: what the conditions of the updates in bookings.service.ts and
-- payments.service.ts leave to the request that comes second.
use hktutor.Shared.{
  refl, List, Option, count_where, update_where, ◌≡◌, arith, false, count_where-update_where_less,
}
use hktutor.Bookings.Transition.{
  to_confirmed, to_canceled, TutorBookingAction, transition_pending_booking, Transition,
  TutorBookingActionResponse, is_undecided, apply_transition,
}
use hktutor.Database.Schema.{Store, Booking}
use hktutor.Database.Values.{Value}
use hktutor.Database.Results.{ok}
use hktutor.Database.Enums.{is_pending}

-- No row is left that a second decision could meet.
undecided-none :
    (input : TutorBookingAction) (change : Transition) (bs : List Booking)
    → count_where
        (is_undecided input)
        (update_where (is_undecided input) (apply_transition change) bs)
      ≡ 0
undecided-none input change bs = omega (
  arith,
  count_where-update_where_less (is_undecided input) (is_undecided input) (apply_transition change)
      bs (λ b h. ground (arith, decided change b)),
)
  where
    decided : (k : Transition) (b : Booking) → is_pending (apply_transition k b).status ≡ false
    decided to_confirmed b = refl
    decided (to_canceled at by reason) b = refl

transition-updated :
    (input : TutorBookingAction) (change : Transition) (seen s t : Store) (refusal : Option Value)
    {r : TutorBookingActionResponse}
    → transition_pending_booking input change seen refusal s ≡ (ok r, t)
    → t.bookings ≡ update_where (is_undecided input) (apply_transition change) s.bookings
unfolding transition_pending_booking
transition-updated input change seen s t refusal h = ground arith

transition-missed :
    (input : TutorBookingAction) (change : Transition) (seen s : Store) (refusal : Option Value)
    → count_where (is_undecided input) s.bookings ≡ 0
    → (transition_pending_booking input change seen refusal s).1 ≡ s
unfolding transition_pending_booking
transition-missed input change seen s refusal h = ground arith

-- A tutor's decision on a booking, once taken, stands: whatever a second decision of the tutor on
-- the same booking is and whatever it had read before, it changes nothing.
pub transition-once :
    (input : TutorBookingAction) (first second : Transition) (seen later_seen s t : Store)
    (refusal later_refusal : Option Value) {r : TutorBookingActionResponse}
    → transition_pending_booking input first seen refusal s ≡ (ok r, t)
    → (transition_pending_booking input second later_seen later_refusal t).1 ≡ t
transition-once input first second seen later_seen s t refusal later_refusal h =
    transition-missed input second later_seen t later_refusal (
      rw (transition-updated input first seen s t refusal h)
        (undecided-none input first s.bookings))
