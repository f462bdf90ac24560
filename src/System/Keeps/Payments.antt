-- ===== src/System/Keeps/Payments.antt =====
-- The transactions of payments.service.ts keep the invariant.
use hktutor.Shared.{
  refl, ℕ, List, Option, count_where, ◌≡◌, update_where, ◌≤◌, arith, count_where-le, ◌++◌, inl, inr,
  ◌∷◌, [], update_where-none, Bool, All-update_where, count_where-update_where_same,
  count_where-append, Bool-cases, ◌==◌, count_where-update_where_more,
}
use hktutor.Payments.Create.{PaymentInput, is_claimable, claim, claim_row, new_attempt}
use hktutor.Database.Schema.{Store, Booking, RescheduleRequest, PaymentAttempt}
use hktutor.System.Invariant.{
  IsConsistent, Consistent, has_booking_id, BookingIsValid, is_active_of, is_locked,
}
use hktutor.Database.Values.{Value}
use hktutor.Payments.Settlement.{has_id}
use hktutor.Payments.Effects.{claim-others, claim-tables}
use hktutor.Database.Queries.{reserves}

-- A claim counts at most one booking.
claim-once :
    (input : PaymentInput) (amount : ℕ) {bs : List Booking} {rs : List RescheduleRequest}
    {ps : List PaymentAttempt}
    → Consistent bs rs ps
    → count_where (is_claimable input amount) bs ≤ 1
claim-once input amount {bs} c = omega (
  arith,
  c.booking_ids input.booking_id,
  count_where-le (is_claimable input amount) (has_booking_id input.booking_id) bs
      (λ b h. ground arith),
)

-- A claim that wins: one booking is locked, by one new attempt.
claim-Consistent :
    (input : PaymentInput) (amount : ℕ) {bs : List Booking} {rs : List RescheduleRequest}
    {ps : List PaymentAttempt}
    → count_where (is_claimable input amount) bs ≡ 1
    → count_where (has_id input.attempt_id) ps ≡ 0
    → Consistent bs rs ps
    → Consistent
        (update_where (is_claimable input amount) claim_row bs)
        rs
        (ps ++ new_attempt input amount ∷ [])
claim-Consistent input amount {bs} {ps} won fresh c =
    let w : Booking → Bool = is_claimable input amount in
    record {
      bookings_valid =
          All-update_where BookingIsValid w claim_row bs (λ b h v. ground arith) c.bookings_valid;
      requests_valid = c.requests_valid;
      slots_exclusive = λ slot. omega (
        arith,
        c.slots_exclusive slot,
        count_where-update_where_same (reserves slot) w claim_row bs (λ b h. refl),
      );
      one_open_request = c.one_open_request;
      booking_ids = λ i. omega (
        arith,
        c.booking_ids i,
        count_where-update_where_same (has_booking_id i) w claim_row bs (λ b h. refl),
      );
      attempt_ids = λ i. ground (
        arith,
        c.attempt_ids i,
        count_where-append (has_id i) ps (new_attempt input amount ∷ []),
      );
      locked_by_attempt = λ i. elim (Bool-cases (input.booking_id == i)) [
        | inl own ↦ ground (
          arith,
          c.locked_by_attempt i,
          count_where-append (is_active_of i) ps (new_attempt input amount ∷ []),
          count_where-update_where_more (is_locked i) w claim_row bs (λ b h. ground arith),
        )
        | inr other ↦ ground (
          arith,
          c.locked_by_attempt i,
          count_where-append (is_active_of i) ps (new_attempt input amount ∷ []),
          count_where-update_where_same (is_locked i) w claim_row bs (λ b h. ground arith),
        )
      ];
    }

module _ (s : Store) (c : IsConsistent s) where
  -- The attempt's id is new, which `randomUUID` and the primary key provide.
  pub claim-IsConsistent :
      (input : PaymentInput) (amount : ℕ) (refusal : Option Value)
      → count_where (has_id input.attempt_id) s.attempts ≡ 0
      → IsConsistent (claim input amount refusal s).1
  claim-IsConsistent input amount refusal fresh =
      let (same_requests, _) = claim-others input amount refusal s in
      elim (claim-tables input amount refusal s) [
        | inl (same_bookings, same_attempts) ↦ rw (same_bookings, same_requests, same_attempts) c
        | inr (changed, outcome) ↦ elim outcome [
          | inl (lost, same_attempts) ↦
              let nothing : count_where (is_claimable input amount) s.bookings ≡ 0 =
                omega (arith, claim-once input amount c) in
              rw
                (
                  changed,
                  same_requests,
                  same_attempts,
                  update_where-none (is_claimable input amount) claim_row s.bookings nothing,
                )
                c
          | inr (won, added) ↦
              rw (changed, same_requests, added) (claim-Consistent input amount won fresh c)
        ]
      ]
