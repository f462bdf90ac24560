-- ===== src/Bookings/Amounts.antt =====
-- bookings.service.ts: `deriveBookingAmounts` and `bookingPagination`.
use hktutor.Shared.{ℕ, ◌+◌, ◌-◌, ◌*◌, ◌/◌, Option, none, some, leb, if◌then◌else◌}
use hktutor.Database.Schema.{AvailabilitySlot}
use hktutor.Database.Exceptions.{slot_invalid_duration}
use hktutor.Database.Results.{Result, ok, throw}

-- `MILLISECONDS_PER_HOUR`
abbrev pub milliseconds_per_hour : ℕ
milliseconds_per_hour = 60 * 60 * 1000

-- The currency code 'THB'.
abbrev pub thb : ℕ
thb = 764

pub record BookingAmounts : Type 0 where
  pub currency : ℕ
  pub discount_amount : ℕ
  pub net_amount : ℕ
  pub subtotal_amount : ℕ

-- `a / b` to the nearest whole number, a half upwards: `toDecimalPlaces(2)` of an amount in
-- hundredths. Decimal's own 20 digits lose nothing for prices of `Decimal(10, 2)` and slots below
-- ten digits of milliseconds.
unfoldable pub round_half_up : ℕ → ℕ → ℕ
round_half_up a b = (2 * a + b) / (2 * b)

-- `deriveBookingAmounts`: `durationMs <= 0` is `endAtUtc <= startAtUtc`.
unfoldable pub derive_booking_amounts : ℕ → AvailabilitySlot → Result BookingAmounts
unfolding round_half_up
derive_booking_amounts price slot =
    let subtotal = round_half_up (price * (slot.end_at - slot.start_at)) milliseconds_per_hour in
    if leb slot.end_at slot.start_at
    then throw slot_invalid_duration
    else ok (record {
      currency = thb;
      discount_amount = 0;
      net_amount = subtotal - 0;
      subtotal_amount = subtotal;
    })

pub record Pagination : Type 0 where
  pub skip : ℕ
  pub take : ℕ

abbrev pub or_default : Option ℕ → ℕ → ℕ
or_default none d = d
or_default (some n) d = n

-- `bookingPagination`; the DTO admits pages from 1.
unfoldable pub booking_pagination : Option ℕ → Option ℕ → Pagination
booking_pagination page page_size = record {
  skip = (or_default page 1 - 1) * or_default page_size 20;
  take = or_default page_size 20;
}
