-- ===== src/Bookings/Selection.antt =====
-- bookings.service.ts: `assertBookableSlot`, `validateBookingSelection`, `create`, `getQuote`.
use hktutor.Shared.{
  Bool, false, not, Option, none, some, ◌&&◌, ◌||◌, ◌==◌, ◌!=◌, Text, find, leb, is_some, is_none,
}
use hktutor.Database.Enums.{is_student, is_account_active, is_published, is_verified, is_tutor}
use hktutor.Database.Schema.{
  Uuid, Time, Store, AvailabilitySlot, TeachingListing, TutorProfile, User,
}
use hktutor.Database.Exceptions.{
  slot_missing, slot_unavailable, slot_past, slot_booked, slot_wrong_listing, student_not_active,
  student_profile_missing, listing_missing, listing_unavailable, tutor_unavailable,
}
use hktutor.Database.Results.{Result, ok, throw, ◌>>=◌, ◌>>◌, or_throw, throw_if}
use hktutor.Database.Queries.{
  find_user, find_student_profile, find_slot, find_listing, is_slot_reserved,
}
use hktutor.Bookings.Amounts.{BookingAmounts, derive_booking_amounts}

-- `CreateBookingInput` and `GetBookingQuoteInput`; the two select a slot and a listing alike.
pub record BookingSelection : Type 0 where
  pub student_user_id : Uuid
  pub slot_id : Uuid
  pub listing_id : Uuid

-- `assertBookableSlot`, at the time of `Date.now()`.
unfoldable pub assert_bookable_slot : Time → Option AvailabilitySlot → Result AvailabilitySlot
assert_bookable_slot now none = throw slot_missing
assert_bookable_slot now (some slot) = do
  throw_if (is_some slot.deleted_at) slot_unavailable
  throw_if (leb slot.start_at now) slot_past
  ok slot

-- The condition `user: { accountStatus: ACTIVE, deletedAt: null, role: TUTOR }` on the tutor.
abbrev pub is_active_tutor : Option User → Bool
is_active_tutor none = false
is_active_tutor (some u) =
    is_account_active u.account_status && is_none u.deleted_at && is_tutor u.role

-- `publicTutorWhere` (tutors/public-tutor-access.ts)
unfoldable pub is_public_tutor : Store → TutorProfile → Bool
is_public_tutor s p = is_verified p.verification_status && is_active_tutor (find_user p.user_id s)

unfoldable pub find_public_tutor : Uuid → Store → Option TutorProfile
unfolding is_public_tutor
find_public_tutor i s = find (λ p. is_public_tutor s p && p.user_id == i) s.tutor_profiles

abbrev pub is_active_student : Option User → Bool
is_active_student none = false
is_active_student (some u) =
    is_student u.role && is_account_active u.account_status && is_none u.deleted_at

pub record ValidSelection : Type 0 where
  pub amounts : BookingAmounts
  pub listing : TeachingListing
  pub tutor : TutorProfile

-- `validateBookingSelection`. The intent only changes the words of two messages.
unfoldable pub validate_booking_selection :
    BookingSelection → AvailabilitySlot → Store → Result ValidSelection
unfolding find_public_tutor derive_booking_amounts
validate_booking_selection input slot s = do
  throw_if (is_slot_reserved input.slot_id s) slot_booked
  throw_if (not (is_active_student (find_user input.student_user_id s))) student_not_active
  throw_if (is_none (find_student_profile input.student_user_id s)) student_profile_missing
  listing ← or_throw (find_listing input.listing_id s) listing_missing
  throw_if (is_some listing.deleted_at || not (is_published listing.publication_status))
      listing_unavailable
  throw_if (listing.tutor_profile_id != slot.tutor_profile_id) slot_wrong_listing
  tutor ← or_throw (find_public_tutor listing.tutor_profile_id s) tutor_unavailable
  throw_if (not (is_verified tutor.verification_status)) tutor_unavailable
  amounts ← derive_booking_amounts listing.price_per_hour slot
  ok (record { amounts = amounts; listing = listing; tutor = tutor })

pub record BookingQuote : Type 0 where
  pub amounts : BookingAmounts
  pub listing : TeachingListing
  pub slot : AvailabilitySlot
  pub tutor_id : Uuid
  pub display_name : Text

-- `getQuote`: the controller has set `studentUserId`.
unfoldable pub get_quote : BookingSelection → Time → Store → Result BookingQuote
unfolding assert_bookable_slot validate_booking_selection
get_quote input now s = do
  slot ← assert_bookable_slot now (find_slot input.slot_id s)
  valid ← validate_booking_selection input slot s
  ok (record {
    amounts = valid.amounts;
    listing = valid.listing;
    slot = slot;
    tutor_id = valid.listing.tutor_profile_id;
    display_name = valid.tutor.display_name;
  })
