-- ===== src/System/Keeps/Updates.antt =====
-- Updates of the table of bookings that keep the invariant.
use hktutor.Shared.{
  ◌≡◌, Bool, List, true, update_where, All-update_where, arith, count_where-update_where_mono,
  count_where-update_where_same, ◌∙◌, sym, count_where, false, ◌++◌, ◌∷◌, [], All-append,
  count_where-append, ==→eq,
}
use hktutor.Database.Schema.{Booking, RescheduleRequest, PaymentAttempt, Uuid}
use hktutor.System.Invariant.{BookingIsValid, Consistent, has_booking_id, is_locked}
use hktutor.Database.Queries.{reserves}

-- An update of bookings that keeps them valid, keeps their ids and locks, and takes no slot.
module _ (w : Booking → Bool) (f : Booking → Booking) {bs : List Booking}
    {rs : List RescheduleRequest} {ps : List PaymentAttempt} where
  pub update-Consistent :
      ((b : Booking) → w b ≡ true → BookingIsValid b → BookingIsValid (f b))
      → ((b : Booking) → (f b).id ≡ b.id)
      → ((slot : Uuid) (b : Booking)
          → w b ≡ true
          → reserves slot (f b) ≡ true
          → reserves slot b ≡ true)
      → ((b : Booking) → w b ≡ true → (f b).payment_pending ≡ b.payment_pending)
      → Consistent bs rs ps
      → Consistent (update_where w f bs) rs ps
  update-Consistent valid same_id free same_lock c = record {
    bookings_valid = All-update_where BookingIsValid w f bs valid c.bookings_valid;
    requests_valid = c.requests_valid;
    slots_exclusive = λ slot. omega (
      arith,
      c.slots_exclusive slot,
      count_where-update_where_mono (reserves slot) w f bs (free slot),
    );
    one_open_request = c.one_open_request;
    booking_ids = λ i. omega (
      arith,
      c.booking_ids i,
      count_where-update_where_same (has_booking_id i) w f bs (λ b h. rw (same_id b)),
    );
    attempt_ids = c.attempt_ids;
    locked_by_attempt = λ i.
        c.locked_by_attempt i
        ∙ sym (
            count_where-update_where_same (is_locked i) w f bs
              (λ b h. rw (same_id b, same_lock b h)));
  }

-- A new booking, under a new id and for a slot that no booking holds.
pub insert-Consistent :
    (b : Booking) {bs : List Booking} {rs : List RescheduleRequest} {ps : List PaymentAttempt}
    → BookingIsValid b
    → count_where (reserves b.slot_id) bs ≡ 0
    → count_where (has_booking_id b.id) bs ≡ 0
    → b.payment_pending ≡ false
    → Consistent bs rs ps
    → Consistent (bs ++ b ∷ []) rs ps
insert-Consistent b {bs} valid free fresh unlocked c = record {
  bookings_valid = All-append BookingIsValid bs b c.bookings_valid valid;
  requests_valid = c.requests_valid;
  slots_exclusive = λ slot. ground (
    arith,
    c.slots_exclusive slot,
    count_where-append (reserves slot) bs (b ∷ []),
    ==→eq b.slot_id slot,
  );
  one_open_request = c.one_open_request;
  booking_ids =
      λ i. ground (arith, c.booking_ids i, count_where-append (has_booking_id i) bs (b ∷ []));
  attempt_ids = c.attempt_ids;
  locked_by_attempt =
      λ i. ground (arith, c.locked_by_attempt i, count_where-append (is_locked i) bs (b ∷ []));
}
