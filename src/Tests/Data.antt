-- ===== src/Tests/Data.antt =====
-- Tables with a student, a tutor, a listing and two slots of an hour, two days ahead.
use hktutor.Shared.{[], ◌∷◌, none, some, false, List, ℕ, ◌+◌}
use hktutor.Database.Enums.{
  BookingStatus, RescheduleRequestStatus, ListingPublicationStatus, Role, TutorVerificationStatus,
  paid, AccountStatus, AttendanceStatus, unpaid,
}
use hktutor.Database.Schema.{
  AvailabilitySlot, Booking, RescheduleRequest, Store, StudentProfile, TeachingListing,
  TutorProfile, User, PaymentAttempt,
}
use hktutor.Bookings.Selection.{BookingSelection}
use hktutor.Payments.Create.{PaymentInput}
use hktutor.Payments.Charges.{ChargeStatus, OmiseCharge}
use hktutor.Bookings.Amounts.{thb}

abbrev pub alice : User
alice = record {
  id = 1;
  role = Role.student;
  account_status = AccountStatus.active;
  email = 101;
  password_hash = none;
  email_verified_at = none;
  consent_accepted_at = some 0;
  policy_version = some "2026-09-30";
  deleted_at = none;
}

abbrev pub thomas : User
thomas = record {
  id = 2;
  role = Role.tutor;
  account_status = AccountStatus.active;
  email = 102;
  password_hash = none;
  email_verified_at = none;
  consent_accepted_at = some 0;
  policy_version = some "2026-09-30";
  deleted_at = none;
}

abbrev pub alice_profile : StudentProfile
alice_profile = record {
  user_id = 1;
  first_name = [];
  last_name = [];
  nickname = [];
  school = [];
  grade_level = [];
  phone = [];
}

abbrev pub thomas_profile : TutorProfile
thomas_profile = record {
  user_id = 2;
  first_name = none;
  last_name = none;
  nickname = none;
  display_name = [];
  bio = [];
  experience_years = 3;
  verification_status = TutorVerificationStatus.verified;
  rating_average = none;
  review_count = 0;
  rating_updated_at = none;
}

-- Two days of milliseconds.
abbrev pub in_two_days : ℕ
in_two_days = 172800000

abbrev pub monday : AvailabilitySlot
monday = record {
  id = 10;
  tutor_profile_id = 2;
  start_at = in_two_days;
  end_at = in_two_days + 3600000;
  deleted_at = none;
}

abbrev pub tuesday : AvailabilitySlot
tuesday = record {
  id = 11;
  tutor_profile_id = 2;
  start_at = in_two_days + 86400000;
  end_at = in_two_days + 90000000;
  deleted_at = none;
}

abbrev pub mathematics : TeachingListing
mathematics = record {
  id = 30;
  tutor_profile_id = 2;
  subject = record { id = 40; name = [] };
  grade_level = record { id = 41; name = [] };
  price_per_hour = 45000;
  description = [];
  publication_status = ListingPublicationStatus.published;
  deleted_at = none;
}

abbrev pub tables : List Booking → List RescheduleRequest → List PaymentAttempt → Store
tables bookings requests attempts = record {
  users = alice ∷ thomas ∷ [];
  student_profiles = alice_profile ∷ [];
  tutor_profiles = thomas_profile ∷ [];
  slots = monday ∷ tuesday ∷ [];
  listings = mathematics ∷ [];
  bookings = bookings;
  attempts = attempts;
  requests = requests;
  notifications = [];
  reviews = [];
  verification_tokens = [];
  reset_tokens = [];
  sessions = [];
  documents = [];
  audits = [];
  intents = [];
}

-- Before the first booking.
abbrev pub no_bookings : Store
no_bookings = tables [] [] []

abbrev pub selection : BookingSelection
selection = record { student_user_id = 1; slot_id = 10; listing_id = 30 }

-- The booking of the first slot, as it is created.
abbrev pub requested : Booking
requested = record {
  id = 100;
  student_user_id = 1;
  tutor_profile_id = 2;
  listing_id = 30;
  slot_id = 10;
  status = BookingStatus.pending;
  subtotal_amount = 45000;
  discount_amount = 0;
  net_amount = 45000;
  currency = thb;
  payment_status = unpaid;
  mock_reference = none;
  payment_reference = none;
  payment_pending = false;
  paid_at = none;
  meeting_url = none;
  attendance = none;
  attendance_marked_at = none;
  canceled_by_id = none;
  cancellation_reason = none;
  canceled_at = none;
  created_at = 0;
}

abbrev pub confirmed_booking : Booking
confirmed_booking = record requested { status = BookingStatus.confirmed }

abbrev pub completed_booking : Booking
completed_booking = record requested {
  status = BookingStatus.completed;
  payment_status = paid;
  attendance = some AttendanceStatus.attended;
  attendance_marked_at = some 180000000;
}

abbrev pub payment : PaymentInput
payment = record { booking_id = 100; student_user_id = 1; attempt_id = 500; now = 1000 }

-- A charge of the amount of the booking, by the attempt 500.
abbrev pub charge : ChargeStatus → OmiseCharge
charge status = record {
  id = 700;
  amount = 45000;
  currency = thb;
  booking_id = 100;
  attempt_id = 500;
  status = status;
  paid_at = some 2000;
  expires_at = none;
  qr_code_url = none;
  failure_code = none;
}

-- A request to move the booking to the second slot.
abbrev pub move_request : RescheduleRequest
move_request = record {
  id = 300;
  booking_id = 100;
  requested_by_id = 1;
  from_slot_id = 10;
  requested_slot_id = 11;
  reason = [];
  status = RescheduleRequestStatus.pending;
  reviewed_by_id = none;
  requested_at = 0;
  decided_at = none;
  withdrawn_at = none;
}
