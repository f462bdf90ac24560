-- ===== src/Payments/Races.antt =====
-- The claim of a booking for payment, against other requests on the same booking.
use hktutor.Shared.{
  refl, some, ℕ, Option, ◌≡◌, count_where, update_where, ◌≤◌, Bool, arith, true,
  count_where-update_where_more, count_where-update_where_same, false, count_where-disjoint, none,
  inr, inl,
}
use hktutor.Payments.Create.{PaymentInput, claim, is_claimable, claim_row}
use hktutor.Database.Values.{Value}
use hktutor.Database.Schema.{Store, PaymentAttempt, Booking, Time, Uuid}
use hktutor.System.Invariant.{IsConsistent, has_booking_id, is_locked}
use hktutor.Database.Results.{ok, Result-cases}
use hktutor.Bookings.Cancel.{cancel_booking, is_cancelable}
use hktutor.Bookings.Cancel.Checks.{CancelInput, check_cancelable}

claim-won :
    (input : PaymentInput) (amount : ℕ) (refusal : Option Value) (s t : Store) {a : PaymentAttempt}
    → claim input amount refusal s ≡ (ok (some a), t)
    → (t.bookings ≡ update_where (is_claimable input amount) claim_row s.bookings)
      × (count_where (is_claimable input amount) s.bookings ≡ 1)
unfolding claim
claim-won input amount refusal s t h = ground arith

-- A cancellation that meets no row changes nothing.
cancel-missed :
    (input : CancelInput) (now canceled_at : Time) (seen s : Store) (refusal : Option Value)
    → ((slot : Uuid) → count_where (is_cancelable input slot) s.bookings ≡ 0)
    → (cancel_booking input now canceled_at seen refusal s).1 ≡ s
unfolding cancel_booking
cancel-missed input now canceled_at seen s refusal h =
    elim (Result-cases (check_cancelable input now seen)) [
      | inr (e, thrown) ↦ ground arith
      | inl (b, passed) ↦ ground (arith, h b.slot_id)
    ]

claim-missed :
    (input : PaymentInput) (amount : ℕ) (s : Store)
    → count_where (is_claimable input amount) s.bookings ≡ 0
    → (claim input amount none s).0 ≡ ok none
unfolding claim
claim-missed input amount s h = ground arith

module _ (input : PaymentInput) (amount : ℕ) (refusal : Option Value) (s t : Store)
    {a : PaymentAttempt} (c : IsConsistent s)
    (h : claim input amount refusal s ≡ (ok (some a), t)) where
  locked_once : 1 ≤ count_where (is_locked input.booking_id) t.bookings
  locked_once =
      let (updated, won) = claim-won input amount refusal s t h in
      rw updated (
        omega (
          arith,
          won,
          count_where-update_where_more (is_locked input.booking_id) (is_claimable input amount)
              claim_row s.bookings (λ b m. ground arith),
        ))

  unique_row : count_where (has_booking_id input.booking_id) t.bookings ≤ 1
  unique_row =
      let (updated, won) = claim-won input amount refusal s t h in
      rw updated (
        omega (
          arith,
          c.booking_ids input.booking_id,
          count_where-update_where_same (has_booking_id input.booking_id)
              (is_claimable input amount) claim_row s.bookings (λ b m. refl),
        ))

  -- A test that no locked row meets, of rows with the claimed booking's id, meets no row.
  unlocked-none :
      (p : Booking → Bool)
      → ((b : Booking) → p b ≡ true → has_booking_id input.booking_id b ≡ true)
      → ((b : Booking) → p b ≡ true → b.payment_pending ≡ false)
      → count_where p t.bookings ≡ 0
  unlocked-none p own free = omega (
    arith,
    locked_once,
    unique_row,
    count_where-disjoint p (is_locked input.booking_id) (has_booking_id input.booking_id) t.bookings
        (λ b m l. ground (arith, free b)) own (λ b l. ground arith),
  )

  -- A booking that is claimed for payment, in tables whose ids of bookings are distinct (as they
  -- are in consistent ones), cannot be canceled: whoever cancels it, and whatever they had read
  -- before the claim, the cancellation changes nothing.
  pub claim-blocks_cancel :
      (cancel : CancelInput) (now canceled_at : Time) (seen : Store) (later_refusal : Option Value)
      → cancel.booking_id ≡ input.booking_id
      → (cancel_booking cancel now canceled_at seen later_refusal t).1 ≡ t
  claim-blocks_cancel cancel now canceled_at seen later_refusal own =
      cancel-missed cancel now canceled_at seen t later_refusal (λ slot.
        unlocked-none (is_cancelable cancel slot) (λ b m. ground arith) (λ b m. ground arith))

  -- Of the requests to pay for one booking, in consistent tables, one at most wins the claim: while
  -- the booking is locked, another claim returns no attempt.
  pub claim-exclusive :
      (second : PaymentInput) (second_amount : ℕ)
      → second.booking_id ≡ input.booking_id
      → (claim second second_amount none t).0 ≡ ok none
  claim-exclusive second second_amount own = claim-missed second second_amount t (
      unlocked-none (is_claimable second second_amount) (λ b m. ground arith) (λ b m. ground arith))
