-- ===== src/Database/Enums.antt =====
-- The enumerations of apps/api/prisma/schema.prisma, with the tests `x === Enum.VALUE`.
use mathlib.Core.Bool.{Bool, true, false}

pub data Role : Type 0 where
  student tutor admin : Role

pub data AccountStatus : Type 0 where
  active suspended deleted : AccountStatus

pub data TutorVerificationStatus : Type 0 where
  unverified pending verified rejected : TutorVerificationStatus

pub data ListingPublicationStatus : Type 0 where
  draft published archived : ListingPublicationStatus

pub data BookingStatus : Type 0 where
  pending confirmed completed canceled expired : BookingStatus

pub data PaymentStatus : Type 0 where
  unpaid paid : PaymentStatus

pub data AttendanceStatus : Type 0 where
  attended absent : AttendanceStatus

pub data PaymentAttemptStatus : Type 0 where
  creating pending successful failed expired : PaymentAttemptStatus

pub data RescheduleRequestStatus : Type 0 where
  pending approved rejected withdrawn : RescheduleRequestStatus

pub data DocumentReviewStatus : Type 0 where
  pending verified rejected : DocumentReviewStatus

pub data AuditAction : Type 0 where
  uploaded reviewed signed_url_issued : AuditAction

pub data StoragePurpose : Type 0 where
  avatar qualification_document : StoragePurpose

abbrev pub is_student : Role → Bool
is_student student = true
is_student _ = false

abbrev pub is_tutor : Role → Bool
is_tutor tutor = true
is_tutor _ = false

abbrev pub is_account_active : AccountStatus → Bool
is_account_active active = true
is_account_active _ = false

abbrev pub is_published : ListingPublicationStatus → Bool
is_published published = true
is_published _ = false

abbrev pub is_pending : BookingStatus → Bool
is_pending BookingStatus.pending = true
is_pending _ = false

abbrev pub is_confirmed : BookingStatus → Bool
is_confirmed BookingStatus.confirmed = true
is_confirmed _ = false

abbrev pub is_completed : BookingStatus → Bool
is_completed BookingStatus.completed = true
is_completed _ = false

abbrev pub is_canceled : BookingStatus → Bool
is_canceled BookingStatus.canceled = true
is_canceled _ = false

abbrev pub is_expired : BookingStatus → Bool
is_expired BookingStatus.expired = true
is_expired _ = false

-- `status: { in: [BookingStatus.PENDING, BookingStatus.CONFIRMED] }`
abbrev pub holds_slot : BookingStatus → Bool
holds_slot BookingStatus.pending = true
holds_slot BookingStatus.confirmed = true
holds_slot _ = false

abbrev pub is_paid : PaymentStatus → Bool
is_paid paid = true
is_paid _ = false

abbrev pub is_unpaid : PaymentStatus → Bool
is_unpaid unpaid = true
is_unpaid _ = false

abbrev pub same_attendance : AttendanceStatus → AttendanceStatus → Bool
same_attendance attended attended = true
same_attendance absent absent = true
same_attendance _ _ = false

-- `ACTIVE_STATUSES`
abbrev pub is_attempt_active : PaymentAttemptStatus → Bool
is_attempt_active PaymentAttemptStatus.creating = true
is_attempt_active PaymentAttemptStatus.pending = true
is_attempt_active _ = false

abbrev pub is_creating : PaymentAttemptStatus → Bool
is_creating PaymentAttemptStatus.creating = true
is_creating _ = false

abbrev pub is_request_open : RescheduleRequestStatus → Bool
is_request_open RescheduleRequestStatus.pending = true
is_request_open _ = false

abbrev pub is_verified : TutorVerificationStatus → Bool
is_verified TutorVerificationStatus.verified = true
is_verified _ = false
