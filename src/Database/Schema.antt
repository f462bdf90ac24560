-- ===== src/Database/Schema.antt =====
-- The tables of apps/api/prisma/schema.prisma that the modelled components read or write. An
-- identifier (uuid) and an opaque code are numbers, since the code only compares them; a time is
-- the number of milliseconds since the epoch; money is in hundredths (`Decimal(10, 2)`). The
-- columns that only the database maintains (`updatedAt`) are left out.
mod Keys
mod Accounts
mod Files
pub use Keys.{Uuid, Time}
pub use Accounts.{OneTimeToken, AuthSession, Review}
pub use Files.{TutorDocument, TutorDocumentAudit, StorageCleanupIntent}
use hktutor.Shared.{ℕ, String, Bool, Option, List, Text}
use hktutor.Database.Enums.{
  Role, AccountStatus, TutorVerificationStatus, ListingPublicationStatus, BookingStatus,
  PaymentStatus, AttendanceStatus, PaymentAttemptStatus, RescheduleRequestStatus,
}

pub record User : Type 0 where
  pub id : Uuid
  pub role : Role
  pub account_status : AccountStatus
  pub email : ℕ
  pub password_hash : Option ℕ
  pub email_verified_at : Option Time
  pub consent_accepted_at : Option Time
  pub policy_version : Option String
  pub deleted_at : Option Time

pub record StudentProfile : Type 0 where
  pub user_id : Uuid
  pub first_name : Text
  pub last_name : Text
  pub nickname : Text
  pub school : Text
  pub grade_level : Text
  pub phone : Text

pub record TutorProfile : Type 0 where
  pub user_id : Uuid
  pub first_name : Option Text
  pub last_name : Option Text
  pub nickname : Option Text
  pub display_name : Text
  pub bio : Text
  pub experience_years : ℕ
  pub verification_status : TutorVerificationStatus
  pub rating_average : Option ℕ
  pub review_count : ℕ
  pub rating_updated_at : Option Time

pub record AvailabilitySlot : Type 0 where
  pub id : Uuid
  pub tutor_profile_id : Uuid
  pub start_at : Time
  pub end_at : Time
  pub deleted_at : Option Time

-- `Subject` and `GradeLevel`, of which only the name is shown.
pub record Named : Type 0 where
  pub id : Uuid
  pub name : Text

pub record TeachingListing : Type 0 where
  pub id : Uuid
  pub tutor_profile_id : Uuid
  pub subject : Named
  pub grade_level : Named
  pub price_per_hour : ℕ
  pub description : Text
  pub publication_status : ListingPublicationStatus
  pub deleted_at : Option Time

pub record Booking : Type 0 where
  pub id : Uuid
  pub student_user_id : Uuid
  pub tutor_profile_id : Uuid
  pub listing_id : Uuid
  pub slot_id : Uuid
  pub status : BookingStatus
  pub subtotal_amount : ℕ
  pub discount_amount : ℕ
  pub net_amount : ℕ
  pub currency : ℕ
  pub payment_status : PaymentStatus
  pub mock_reference : Option ℕ
  pub payment_reference : Option ℕ
  pub payment_pending : Bool
  pub paid_at : Option Time
  pub meeting_url : Option Text
  pub attendance : Option AttendanceStatus
  pub attendance_marked_at : Option Time
  pub canceled_by_id : Option Uuid
  pub cancellation_reason : Option Text
  pub canceled_at : Option Time
  pub created_at : Time

pub record PaymentAttempt : Type 0 where
  pub id : Uuid
  pub booking_id : Uuid
  pub amount : ℕ
  pub currency : ℕ
  pub status : PaymentAttemptStatus
  pub charge_id : Option ℕ
  pub qr_code_url : Option ℕ
  pub expires_at : Option Time
  pub paid_at : Option Time
  pub failure_code : Option ℕ
  pub created_at : Time

pub record RescheduleRequest : Type 0 where
  pub id : Uuid
  pub booking_id : Uuid
  pub requested_by_id : Uuid
  pub from_slot_id : Uuid
  pub requested_slot_id : Uuid
  pub reason : Text
  pub status : RescheduleRequestStatus
  pub reviewed_by_id : Option Uuid
  pub requested_at : Time
  pub decided_at : Option Time
  pub withdrawn_at : Option Time

pub data ReminderBand : Type 0 where
  band_24h band_1h : ReminderBand

pub data ReminderKind : Type 0 where
  class_reminder payment_reminder : ReminderKind

pub data EventType : Type 0 where
  booking_created booking_confirmed booking_rejected booking_canceled : EventType
  reschedule_requested reschedule_approved reschedule_rejected reschedule_withdrawn : EventType
  reminder : ReminderKind → ReminderBand → EventType

-- The parts that `eventKey` joins by colons: an event's type and the id of its booking or request;
-- or a reminder's booking, slot, start, band and kind.
pub data EventKey : Type 0 where
  event_key : EventType → Uuid → EventKey
  reminder_key : Uuid → Uuid → Time → ReminderBand → ReminderKind → EventKey

-- The title and the text of a notification are fixed by its type, so they are left out.
pub record Notification : Type 0 where
  pub user_id : Uuid
  pub key : EventKey
  pub event_type : EventType
  pub booking_id : Uuid

pub record Store : Type 0 where
  pub users : List User
  pub student_profiles : List StudentProfile
  pub tutor_profiles : List TutorProfile
  pub slots : List AvailabilitySlot
  pub listings : List TeachingListing
  pub bookings : List Booking
  pub attempts : List PaymentAttempt
  pub requests : List RescheduleRequest
  pub notifications : List Notification
  pub reviews : List Review
  pub verification_tokens : List OneTimeToken
  pub reset_tokens : List OneTimeToken
  pub sessions : List AuthSession
  pub documents : List TutorDocument
  pub audits : List TutorDocumentAudit
  pub intents : List StorageCleanupIntent
