-- ===== src/Bookings/ClassDetail.antt =====
-- bookings.service.ts: `getBookingClassDetail`.
use hktutor.Shared.{ℕ, Option, none, some, [], ◌&&◌, ◌==◌, find, Text, if◌then◌else◌}
use hktutor.Database.Enums.{BookingStatus, PaymentStatus, AttendanceStatus, is_paid}
use hktutor.Database.Schema.{Uuid, Time, Store, TutorProfile, StudentProfile, Named}
use hktutor.Database.Exceptions.{booking_not_found, bad_request}
use hktutor.Database.Results.{Result, ok, ◌>>=◌, or_throw}
use hktutor.Database.Queries.{find_booking_with_slot, find_listing, find_student_profile}
use hktutor.Bookings.MeetingLink.{has_meeting_link}

pub record TutorDetail : Type 0 where
  pub first_name : Text
  pub last_name : Text
  pub nickname : Text
  pub display_name : Text
  pub bio : Text
  pub experience_years : ℕ

pub record ClassDetail : Type 0 where
  pub booking_id : Uuid
  pub status : BookingStatus
  pub payment_status : PaymentStatus
  pub start_at : Time
  pub end_at : Time
  pub subject : Named
  pub meeting_url : Option Text
  pub attendance : Option AttendanceStatus
  pub attendance_marked_at : Option Time
  pub tutor_id : Uuid
  pub tutor : TutorDetail
  pub student : StudentProfile

-- `text || ''`
abbrev pub or_empty : Option Text → Text
or_empty none = []
or_empty (some t) = t

abbrev pub tutor_detail : TutorProfile → TutorDetail
tutor_detail p = record {
  first_name = or_empty p.first_name;
  last_name = or_empty p.last_name;
  nickname = or_empty p.nickname;
  display_name = p.display_name;
  bio = p.bio;
  experience_years = p.experience_years;
}

-- `getBookingClassDetail`. The listing and the tutor's profile stand behind foreign keys of the
-- booking: a missing one is read as a missing booking.
unfoldable pub get_booking_class_detail : Uuid → Store → Result ClassDetail
get_booking_class_detail i s = do
  (booking, slot) ← or_throw (find_booking_with_slot i s) booking_not_found
  listing ← or_throw (find_listing booking.listing_id s) booking_not_found
  tutor ←
      or_throw (find (λ p. p.user_id == booking.tutor_profile_id) s.tutor_profiles)
        booking_not_found
  student ← or_throw (find_student_profile booking.student_user_id s) bad_request
  ok (record {
    booking_id = booking.id;
    status = booking.status;
    payment_status = booking.payment_status;
    start_at = slot.start_at;
    end_at = slot.end_at;
    subject = listing.subject;
    meeting_url =
        if is_paid booking.payment_status && has_meeting_link booking.status
        then booking.meeting_url
        else none;
    attendance = booking.attendance;
    attendance_marked_at = booking.attendance_marked_at;
    tutor_id = booking.tutor_profile_id;
    tutor = tutor_detail tutor;
    student = student;
  })
