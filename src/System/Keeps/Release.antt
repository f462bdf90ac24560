-- ===== src/System/Keeps/Release.antt =====
-- The transaction of `create` in payments.service.ts that releases a booking whose charge the
-- provider rejected keeps the invariant.
use hktutor.Shared.{
  refl, inl, inr, some, ◌≡◌, Option, count_where, ◌==◌, false, true, find-fits, update_where,
  count_where_miss, arith, Bool-cases, count_where_zero, All-update_where_to, update_where-none,
  ◌+◌, Bool, count_where_pos, if◌then◌else◌, All-update_where, count_where-le,
  count_where-update_where_once, count_where-update_where_same, ==→eq, ◌≤◌,
}
use hktutor.Payments.Create.{
  PaymentInput, is_own_creating, release, is_own_unpaid, release_row, fail_row,
}
use hktutor.Database.Schema.{Store, PaymentAttempt, Uuid, Booking}
use hktutor.System.Invariant.{
  IsConsistent, is_locked, Consistent, is_active_of, BookingIsValid, has_booking_id,
}
use hktutor.Database.Queries.{find_attempt, reserves}
use hktutor.Database.Enums.{is_creating}
use hktutor.Database.Values.{Value}
use hktutor.Payments.Effects.{release-others, release-tables}
use hktutor.Payments.Settlement.{has_id}

module _ (input : PaymentInput) (s : Store) (k : IsConsistent s) {a : PaymentAttempt}
    (found : find_attempt input.attempt_id s ≡ some a) where
  own-id : (a.id == input.attempt_id) ≡ true
  own-id = find-fits (λ x. x.id == input.attempt_id) s.attempts found

  none-creating : is_creating a.status ≡ false → count_where (is_own_creating input) s.attempts ≡ 0
  none-creating settled =
      count_where_miss (λ x. x.id == input.attempt_id) (is_own_creating input) s.attempts found
        (ground arith) (k.attempt_ids input.attempt_id) (λ x h. ground arith)

  active-failed :
      is_creating a.status ≡ true
      → count_where (is_own_creating input) s.attempts ≡ 1
      → (i : Uuid)
      → count_where (is_active_of i) (update_where (is_own_creating input) fail_row s.attempts)
          + (if a.booking_id == i then 1 else 0)
        ≡ count_where (is_active_of i) s.attempts
  active-failed creating one i = ground (
    arith,
    own-id,
    count_where-update_where_once (is_active_of i) (λ x. x.id == input.attempt_id)
        (is_own_creating input) fail_row s.attempts found (ground (arith, own-id)) one,
  )

  none-locked :
      count_where
        (is_locked input.booking_id)
        (update_where (is_own_unpaid input) release_row s.bookings)
      ≡ 0
  none-locked =
      count_where_zero (is_locked input.booking_id)
        (update_where (is_own_unpaid input) release_row s.bookings)
        (All-update_where_to BookingIsValid (λ b. is_locked input.booking_id b ≡ false)
          (is_own_unpaid input) release_row s.bookings (λ b v. ground (arith, v.locked_confirmed))
          k.bookings_valid)

  release-Consistent :
      a.booking_id ≡ input.booking_id
      → is_creating a.status ≡ true
      → count_where (is_own_creating input) s.attempts ≡ 1
      → Consistent
          (update_where (is_own_unpaid input) release_row s.bookings)
          s.requests
          (update_where (is_own_creating input) fail_row s.attempts)
  release-Consistent owner creating one =
      let w : Booking → Bool = is_own_unpaid input in
      record {
        bookings_valid =
            All-update_where BookingIsValid w release_row s.bookings (λ b h v. ground arith)
              k.bookings_valid;
        requests_valid = k.requests_valid;
        slots_exclusive = λ slot. omega (
          arith,
          k.slots_exclusive slot,
          count_where-update_where_same (reserves slot) w release_row s.bookings (λ b h. refl),
        );
        one_open_request = k.one_open_request;
        booking_ids = λ i. omega (
          arith,
          k.booking_ids i,
          count_where-update_where_same (has_booking_id i) w release_row s.bookings (λ b h. refl),
        );
        attempt_ids = λ i. omega (
          arith,
          k.attempt_ids i,
          count_where-update_where_same (has_id i) (is_own_creating input) fail_row s.attempts
              (λ x h. refl),
        );
        locked_by_attempt = λ i. elim (Bool-cases (input.booking_id == i)) [
          | inl own ↦
              let same : input.booking_id ≡ i = ==→eq input.booking_id i own in
              let none_left : count_where (is_locked i) (update_where w release_row s.bookings)
                  ≡ 0 =
                rw (← same) none-locked in
              let at_most : count_where (is_locked i) s.bookings
                  ≤ count_where (has_booking_id i) s.bookings =
                count_where-le (is_locked i) (has_booking_id i) s.bookings (λ b h. ground arith) in
              ground (
                arith,
                none_left,
                at_most,
                k.booking_ids i,
                k.locked_by_attempt i,
                active-failed creating one i,
              )
          | inr other ↦ ground (
            arith,
            k.locked_by_attempt i,
            active-failed creating one i,
            count_where-update_where_same (is_locked i) w release_row s.bookings
                (λ b h. ground arith),
          )
        ];
      }

  -- The attempt is one that `claim` has inserted for the booking.
  pub release-IsConsistent :
      a.booking_id ≡ input.booking_id
      → (refusal : Option Value) → IsConsistent (release input refusal s).1
  release-IsConsistent owner refusal =
      let (same_requests, _) = release-others input refusal s in
      elim (release-tables input refusal s) [
        | inl (same_bookings, same_attempts) ↦ rw (same_bookings, same_requests, same_attempts) k
        | inr (attempts, outcome) ↦ elim (Bool-cases (is_creating a.status)) [
          | inr settled ↦
              let zero = none-creating settled in
              let same_bookings : (release input refusal s).1.bookings ≡ s.bookings =
                ground arith in
              rw
                (
                  attempts,
                  same_bookings,
                  same_requests,
                  update_where-none (is_own_creating input) fail_row s.attempts zero,
                )
                k
          | inl creating ↦
              let at_least =
                count_where_pos (λ x. x.id == input.attempt_id) (is_own_creating input) s.attempts
                  found (ground (arith, own-id)) in
              let at_most =
                count_where-le (is_own_creating input) (has_id input.attempt_id) s.attempts
                  (λ x h. ground arith) in
              let one : count_where (is_own_creating input) s.attempts ≡ 1 =
                omega (arith, at_least, at_most, k.attempt_ids input.attempt_id) in
              let bookings : (release input refusal s).1.bookings
                  ≡ update_where (is_own_unpaid input) release_row s.bookings =
                ground arith in
              rw (attempts, bookings, same_requests) (release-Consistent owner creating one)
        ]
      ]
