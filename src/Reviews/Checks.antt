-- ===== src/Reviews/Checks.antt =====
-- reviews.service.ts: the checks of `create`, and `findMine`.
use hktutor.Shared.{Bool, true, Option, false, ◌==◌, ◌!=◌, not, find}
use hktutor.Database.Enums.{BookingStatus}
use hktutor.Database.Results.{Result, ok, ◌>>=◌, ◌>>◌, throw_if, or_throw}
use hktutor.Database.Schema.{Uuid, Booking, Review, Store}
use hktutor.Database.Exceptions.{booking_not_owned, booking_not_found, booking_not_completed}
use hktutor.Database.Queries.{find_booking}

abbrev pub is_completed : BookingStatus → Bool
is_completed BookingStatus.completed = true
is_completed _ = false

-- The checks that `create` makes twice: ahead of the transaction, and within it.
unfoldable pub check_reviewable : Uuid → Booking → Result (Unit {0})
check_reviewable student b = do
  throw_if (b.student_user_id != student) booking_not_owned
  throw_if (not (is_completed b.status)) booking_not_completed

-- `bookingId @unique`
abbrev pub is_review_for : Uuid → Review → Bool
is_review_for booking r = r.booking_id == booking

-- `findMine`
unfoldable pub find_mine : Uuid → Uuid → Store → Result (Option Review)
find_mine booking_id student s = do
  booking ← or_throw (find_booking booking_id s) booking_not_found
  throw_if (booking.student_user_id != student) booking_not_owned
  ok (find (is_review_for booking_id) s.reviews)
