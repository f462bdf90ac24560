-- ===== src/Database/Queries.antt =====
-- The queries by a unique column (`findUnique`), and those of the rows that hold a slot.
use hktutor.Shared.{ℕ, Bool, Option, none, some, ◌&&◌, ◌==◌, find, any, count_where}
use hktutor.Database.Enums.{holds_slot}
use hktutor.Database.Schema.{
  Uuid, Store, User, StudentProfile, AvailabilitySlot, TeachingListing, Booking, PaymentAttempt,
  RescheduleRequest,
}

abbrev pub find_user : Uuid → Store → Option User
find_user i s = find (λ u. u.id == i) s.users

abbrev pub find_student_profile : Uuid → Store → Option StudentProfile
find_student_profile i s = find (λ p. p.user_id == i) s.student_profiles

abbrev pub find_slot : Uuid → Store → Option AvailabilitySlot
find_slot i s = find (λ a. a.id == i) s.slots

abbrev pub find_listing : Uuid → Store → Option TeachingListing
find_listing i s = find (λ l. l.id == i) s.listings

abbrev pub find_booking : Uuid → Store → Option Booking
find_booking i s = find (λ b. b.id == i) s.bookings

abbrev pub find_attempt : Uuid → Store → Option PaymentAttempt
find_attempt i s = find (λ a. a.id == i) s.attempts

abbrev pub find_request : Uuid → Store → Option RescheduleRequest
find_request i s = find (λ r. r.id == i) s.requests

-- A booking with its slot. The foreign key of `slotId` rules out a booking whose slot is missing,
-- which is read as a missing booking here.
abbrev pub with_slot : Store → Option Booking → Option (Booking × AvailabilitySlot)
with_slot s none = none
with_slot s (some b) = elim (find_slot b.slot_id s) [ none ↦ none | some a ↦ some (b, a) ]

abbrev pub find_booking_with_slot : Uuid → Store → Option (Booking × AvailabilitySlot)
find_booking_with_slot i s = with_slot s (find_booking i s)

-- `slotId`, and `status: { in: [PENDING, CONFIRMED] }`
abbrev pub reserves : Uuid → Booking → Bool
reserves slot b = b.slot_id == slot && holds_slot b.status

abbrev pub is_slot_reserved : Uuid → Store → Bool
is_slot_reserved slot s = any (reserves slot) s.bookings

abbrev pub reservations : Uuid → Store → ℕ
reservations slot s = count_where (reserves slot) s.bookings
