-- ===== src/System/Keeps/Settlement.antt =====
-- `applyCharge` of payments.service.ts keeps the invariant.
use hktutor.Shared.{
  refl, inl, inr, some, ◌≡◌, Option, false, true, count_where, ◌≢◌, ◌⊎◌, arith, update_where,
  count_where_pos, All-update_where, ◌+◌, ◌==◌, ◌≤◌, ==_self, count_where-update_where_same,
  if◌then◌else◌, count_where-update_where_once, Bool-cases, count_where-update_where_less,
}
use hktutor.Payments.Charges.{ChargeStatus, OmiseCharge}
use hktutor.Database.Schema.{Store, Booking, PaymentAttempt, Uuid}
use hktutor.System.Invariant.{
  IsConsistent, BookingIsValid, Consistent, is_active_of, has_booking_id, is_locked,
}
use hktutor.Payments.Settlement.{
  is_awaiting, settle_row, attempt_status, apply_charge, has_id, attempt_row,
}
use hktutor.Database.Enums.{is_attempt_active}
use hktutor.Database.Queries.{find_attempt, reserves}
use hktutor.Database.Values.{Value}
use hktutor.Payments.Effects.{apply-others, apply-tables}

-- The booking that an attempt has locked, once its charge is settled.
settle_row-IsValid :
    (c : OmiseCharge) (st : ChargeStatus) (a : PaymentAttempt) (b : Booking)
    → is_awaiting a b ≡ true
    → BookingIsValid b
    → BookingIsValid (settle_row c st b)
settle_row-IsValid c ChargeStatus.pending a b h v = ground arith
settle_row-IsValid c ChargeStatus.successful a b h v = ground arith
settle_row-IsValid c ChargeStatus.failed a b h v = ground arith
settle_row-IsValid c ChargeStatus.expired a b h v = ground arith

settle_row-same :
    (c : OmiseCharge) (st : ChargeStatus) (b : Booking)
    → ((settle_row c st b).id ≡ b.id)
      × ((settle_row c st b).status ≡ b.status)
      × ((settle_row c st b).slot_id ≡ b.slot_id)
      × ((settle_row c st b).payment_pending ≡ false)
settle_row-same c ChargeStatus.pending b = (refl, refl, refl, refl)
settle_row-same c ChargeStatus.successful b = (refl, refl, refl, refl)
settle_row-same c ChargeStatus.failed b = (refl, refl, refl, refl)
settle_row-same c ChargeStatus.expired b = (refl, refl, refl, refl)

active-attempt_status :
    (st : ChargeStatus)
    → (st ≡ ChargeStatus.pending) × (is_attempt_active (attempt_status st) ≡ true)
      ⊎ (st ≢ ChargeStatus.pending) × (is_attempt_active (attempt_status st) ≡ false)
active-attempt_status ChargeStatus.pending = inl (refl, refl)
active-attempt_status ChargeStatus.successful = inr (ground arith, refl)
active-attempt_status ChargeStatus.failed = inr (ground arith, refl)
active-attempt_status ChargeStatus.expired = inr (ground arith, refl)

module _ (c : OmiseCharge) {a : PaymentAttempt} (s : Store) (k : IsConsistent s)
    (found : find_attempt c.attempt_id s ≡ some a)
    (active : is_attempt_active a.status ≡ true) where
  own-once : count_where (has_id a.id) s.attempts ≡ 1
  own-once = omega (
    arith,
    k.attempt_ids a.id,
    count_where_pos (λ x. x.id == c.attempt_id) (has_id a.id) s.attempts found (==_self a.id),
  )

  -- The attempt that is rewritten stays active, or it alone stops being so.
  active-settled :
      (i : Uuid)
      → count_where (is_active_of i) (update_where (has_id a.id) (attempt_row c) s.attempts)
          + (if is_active_of i a then 1 else 0)
        ≡ count_where (is_active_of i) s.attempts
          + (if is_active_of i (attempt_row c a) then 1 else 0)
  active-settled i =
      count_where-update_where_once (is_active_of i) (λ x. x.id == c.attempt_id) (has_id a.id)
        (attempt_row c) s.attempts found (==_self a.id) own-once

  ids-settled :
      (i : Uuid)
      → count_where (has_id i) (update_where (has_id a.id) (attempt_row c) s.attempts) ≤ 1
  ids-settled i = omega (
    arith,
    k.attempt_ids i,
    count_where-update_where_same (has_id i) (has_id a.id) (attempt_row c) s.attempts (λ x h. refl),
  )

  -- A charge that is still pending.
  wait-Consistent :
      c.status ≡ ChargeStatus.pending
      → Consistent s.bookings s.requests (update_where (has_id a.id) (attempt_row c) s.attempts)
  wait-Consistent waits = record {
    bookings_valid = k.bookings_valid;
    requests_valid = k.requests_valid;
    slots_exclusive = k.slots_exclusive;
    one_open_request = k.one_open_request;
    booking_ids = k.booking_ids;
    attempt_ids = ids-settled;
    locked_by_attempt = λ i.
        ground (arith, k.locked_by_attempt i, active-settled i, active-attempt_status c.status);
  }

  -- A charge that is settled gives the booking free.
  settle-Consistent :
      c.status ≢ ChargeStatus.pending
      → count_where (is_awaiting a) s.bookings ≡ 1
      → Consistent
          (update_where (is_awaiting a) (settle_row c c.status) s.bookings)
          s.requests
          (update_where (has_id a.id) (attempt_row c) s.attempts)
  settle-Consistent settled one =
      let f : Booking → Booking = settle_row c c.status in
      record {
        bookings_valid =
            All-update_where BookingIsValid (is_awaiting a) f s.bookings
              (settle_row-IsValid c c.status a) k.bookings_valid;
        requests_valid = k.requests_valid;
        slots_exclusive = λ slot. omega (
          arith,
          k.slots_exclusive slot,
          count_where-update_where_same (reserves slot) (is_awaiting a) f s.bookings
              (λ b h. let (_, st, sl, _) = settle_row-same c c.status b in rw (st, sl)),
        );
        one_open_request = k.one_open_request;
        booking_ids = λ i. omega (
          arith,
          k.booking_ids i,
          count_where-update_where_same (has_booking_id i) (is_awaiting a) f s.bookings
              (λ b h. let (same, _, _, _) = settle_row-same c c.status b in rw same),
        );
        attempt_ids = ids-settled;
        locked_by_attempt = λ i. elim (Bool-cases (a.booking_id == i)) [
          | inl own ↦ ground (
            arith,
            k.locked_by_attempt i,
            active-settled i,
            active-attempt_status c.status,
            count_where-update_where_less (is_locked i) (is_awaiting a) f s.bookings
                (λ b h. ground (arith, settle_row-same c c.status b)),
          )
          | inr other ↦ ground (
            arith,
            k.locked_by_attempt i,
            active-settled i,
            active-attempt_status c.status,
            count_where-update_where_same (is_locked i) (is_awaiting a) f s.bookings
                (λ b h. ground (arith, settle_row-same c c.status b)),
          )
        ];
      }

module _ (s : Store) (k : IsConsistent s) where
  pub apply-IsConsistent :
      (c : OmiseCharge) (expected : Uuid) (refusal : Option Value)
      → IsConsistent (apply_charge c expected refusal s).1
  apply-IsConsistent c expected refusal =
      let (same_requests, _) = apply-others c expected refusal s in
      elim (apply-tables c expected refusal s) [
        | inl (same_bookings, same_attempts) ↦ rw (same_bookings, same_requests, same_attempts) k
        | inr (a, (found, _, active, attempts, outcome)) ↦ elim outcome [
          | inl (waits, same_bookings) ↦
              rw (same_bookings, same_requests, attempts) (wait-Consistent c s k found active waits)
          | inr (settled, bookings, one) ↦
              rw (bookings, same_requests, attempts)
                (settle-Consistent c s k found active settled one)
        ]
      ]
