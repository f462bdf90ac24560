-- ===== src/Bookings/Quotes.antt =====
-- The quote of a booking and the booking itself: `getQuote` and `create`.
use hktutor.Database.Enums.{BookingStatus, unpaid}
use hktutor.Shared.{
  refl, inl, inr, some, none, [], Option, ◌≡◌, ◌<◌, arith, ==_self, any-eq_false, ◌++◌, false, ◌∷◌,
  count_where, count_where-append,
}
use hktutor.Bookings.Selection.{
  BookingSelection, BookingQuote, get_quote, assert_bookable_slot, validate_booking_selection,
  ValidSelection,
}
use hktutor.Database.Schema.{Uuid, Time, Store, Booking, AvailabilitySlot}
use hktutor.Database.Values.{Value}
use hktutor.Bookings.Create.{create_booking, new_booking}
use hktutor.Database.Results.{ok, Result-cases}
use hktutor.Database.Queries.{reservations, find_slot, reserves, is_slot_reserved}
use hktutor.Bookings.Amounts.{derive_booking_amounts}

-- A quote that is given holds: to create the booking from the same tables, at the same time, gives
-- the booking of the quoted listing, slot and tutor at the quoted amounts, pending and unpaid.
pub get_quote-create_booking :
    (input : BookingSelection) (id : Uuid) (now created_at : Time) (s : Store) {q : BookingQuote}
    → get_quote input now s ≡ ok q
    → (b : Booking) × ((create_booking input id now created_at none s).0 ≡ ok b)
      × (b.slot_id ≡ input.slot_id)
      × (b.listing_id ≡ q.listing.id)
      × (b.tutor_profile_id ≡ q.tutor_id)
      × (b.subtotal_amount ≡ q.amounts.subtotal_amount)
      × (b.net_amount ≡ q.amounts.net_amount)
      × (b.status ≡ BookingStatus.pending)
      × (b.payment_status ≡ unpaid)
unfolding get_quote create_booking
get_quote-create_booking input id now created_at s {q} h =
    elim (Result-cases (assert_bookable_slot now (find_slot input.slot_id s))) [
      | inr (e, p) ↦ ground arith
      | inl (slot, p) ↦ elim (Result-cases (validate_booking_selection input slot s)) [
        | inr (e, r) ↦ ground arith
        | inl (valid, r) ↦ (
          new_booking id created_at input slot.tutor_profile_id valid,
          ground (arith, ==_self input.student_user_id),
          refl,
          ground arith,
          ground arith,
          ground arith,
          ground arith,
          refl,
          refl,
        )
      ]
    ]

assert_bookable_slot-passed :
    (now : Time) (o : Option AvailabilitySlot) {slot : AvailabilitySlot}
    → assert_bookable_slot now o ≡ ok slot
    → (o ≡ some slot) × (slot.deleted_at ≡ none) × (now < slot.start_at)
unfolding assert_bookable_slot
assert_bookable_slot-passed now none h = ground arith
assert_bookable_slot-passed now (some a) {slot} h = ground arith

validate_booking_selection-passed :
    (input : BookingSelection) (slot : AvailabilitySlot) (s : Store) {valid : ValidSelection}
    → validate_booking_selection input slot s ≡ ok valid
    → (is_slot_reserved input.slot_id s ≡ false) × (slot.start_at < slot.end_at)
unfolding validate_booking_selection derive_booking_amounts
validate_booking_selection-passed input slot s h = ground arith

-- A booking that is created had a free slot, which it alone holds from then on; the slot was not
-- deleted and lay in the future.
pub create_booking-slot :
    (input : BookingSelection) (id : Uuid) (now created_at : Time) (refusal : Option Value)
    (s t : Store) {b : Booking}
    → create_booking input id now created_at refusal s ≡ (ok b, t)
    → (reservations input.slot_id s ≡ 0)
      × (reservations input.slot_id t ≡ 1)
      × ((slot : AvailabilitySlot) × (find_slot input.slot_id s ≡ some slot)
          × (slot.deleted_at ≡ none)
          × (now < slot.start_at)
          × (slot.start_at < slot.end_at))
unfolding create_booking
create_booking-slot input id now created_at refusal s t h =
    elim (Result-cases (assert_bookable_slot now (find_slot input.slot_id s))) [
      | inr (e, p) ↦ ground arith
      | inl (slot, p) ↦ elim (Result-cases (validate_booking_selection input slot s)) [
        | inr (e, r) ↦ ground arith
        | inl (valid, r) ↦
            let (found, live, future) =
              assert_bookable_slot-passed now (find_slot input.slot_id s) p in
            let (free, lasts) = validate_booking_selection-passed input slot s r in
            let empty = any-eq_false (reserves input.slot_id) s.bookings free in
            let row : Booking = new_booking id created_at input slot.tutor_profile_id valid in
            let added : t.bookings ≡ s.bookings ++ row ∷ [] = ground arith in
            let total : count_where (reserves input.slot_id) (s.bookings ++ row ∷ []) ≡ 1 = ground (
              arith,
              empty,
              ==_self input.slot_id,
              count_where-append (reserves input.slot_id) s.bookings (row ∷ []),
            ) in
            (empty, rw added total, (slot, found, live, future, lasts))
      ]
    ]
