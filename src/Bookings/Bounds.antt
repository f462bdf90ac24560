-- ===== src/Bookings/Bounds.antt =====
-- The amounts of a booking: `deriveBookingAmounts`.
use hktutor.Shared.{refl, inl, inr, ℕ, ◌*◌, ◌≤◌, ◌+◌, ◌≡◌, ◌<◌, arith, ◌⊎◌, ◌-◌, Bool-cases, leb}
use hktutor.Bookings.Amounts.{
  derive_booking_amounts, round_half_up, milliseconds_per_hour, BookingAmounts, thb,
}
use hktutor.Database.Schema.{AvailabilitySlot}
use hktutor.Database.Results.{throw, ok}
use hktutor.Database.Exceptions.{slot_invalid_duration}

-- The rounded quotient is within half a unit of the exact one, a half upwards.
round_half_up_hour :
    (a : ℕ)
    → let q = round_half_up a milliseconds_per_hour in
      (2 * q * milliseconds_per_hour ≤ 2 * a + milliseconds_per_hour)
      × (2 * a < 2 * q * milliseconds_per_hour + milliseconds_per_hour)
unfolding round_half_up
round_half_up_hour a = (omega arith, omega arith)

-- The amounts of a slot: without a positive duration there are none. Else nothing is deducted, and
-- the net amount times an hour is the price per hour times the duration, up to half a unit of the
-- net amount, where an exact half is rounded up.
pub derive_booking_amounts_lem :
    (price : ℕ) (slot : AvailabilitySlot)
    → (slot.end_at ≤ slot.start_at)
        × (derive_booking_amounts price slot ≡ throw slot_invalid_duration)
      ⊎ ((amounts : BookingAmounts) × (derive_booking_amounts price slot ≡ ok amounts)
          × (slot.start_at < slot.end_at)
          × (amounts.discount_amount ≡ 0)
          × (amounts.net_amount ≡ amounts.subtotal_amount)
          × (amounts.currency ≡ thb)
          × (2 * amounts.net_amount * milliseconds_per_hour
              ≤ 2 * (price * (slot.end_at - slot.start_at)) + milliseconds_per_hour)
          × (2 * (price * (slot.end_at - slot.start_at))
              < 2 * amounts.net_amount * milliseconds_per_hour + milliseconds_per_hour))
unfolding derive_booking_amounts
derive_booking_amounts_lem price slot = elim (Bool-cases (leb slot.end_at slot.start_at)) [
  | inl empty ↦ inl (ground arith, rw empty refl)
  | inr lasts ↦
      let (low, high) = round_half_up_hour (price * (slot.end_at - slot.start_at)) in
      let subtotal = round_half_up (price * (slot.end_at - slot.start_at)) milliseconds_per_hour in
      let amounts : BookingAmounts = record {
        currency = thb;
        discount_amount = 0;
        net_amount = subtotal - 0;
        subtotal_amount = subtotal;
      } in
      inr (
        amounts,
        rw lasts refl,
        ground arith,
        refl,
        omega arith,
        refl,
        omega (arith, low),
        omega (arith, high),
      )
]
