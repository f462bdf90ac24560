-- ===== src/Documents/Statuses.antt =====
-- qualification-documents.model.ts: the statuses of documents, and that of a tutor derived from
-- them.
use hktutor.Shared.{[], ◌∷◌, Bool, List, if◌then◌else◌, true, any, false, map, select, ◌==◌}
use hktutor.Database.Enums.{DocumentReviewStatus, TutorVerificationStatus}
use hktutor.Database.Schema.{Uuid, TutorDocument}

pub data QualificationStatus : Type 0 where
  pending approved rejected : QualificationStatus

-- `toQualificationStatus`
abbrev pub to_qualification_status : DocumentReviewStatus → QualificationStatus
to_qualification_status DocumentReviewStatus.pending = QualificationStatus.pending
to_qualification_status DocumentReviewStatus.verified = QualificationStatus.approved
to_qualification_status DocumentReviewStatus.rejected = QualificationStatus.rejected

-- `toReviewStatus`
abbrev pub to_review_status : QualificationStatus → DocumentReviewStatus
to_review_status QualificationStatus.pending = DocumentReviewStatus.pending
to_review_status QualificationStatus.approved = DocumentReviewStatus.verified
to_review_status QualificationStatus.rejected = DocumentReviewStatus.rejected

abbrev pub is_verified_document : DocumentReviewStatus → Bool
is_verified_document DocumentReviewStatus.verified = true
is_verified_document _ = false

abbrev pub is_pending_document : DocumentReviewStatus → Bool
is_pending_document DocumentReviewStatus.pending = true
is_pending_document _ = false

abbrev pub is_empty : List DocumentReviewStatus → Bool
is_empty [] = true
is_empty (_ ∷ _) = false

-- `deriveTutorVerificationStatus`
unfoldable pub derive_tutor_verification_status :
    List DocumentReviewStatus → TutorVerificationStatus
derive_tutor_verification_status statuses =
    if any is_verified_document statuses
    then TutorVerificationStatus.verified
    else if any is_pending_document statuses
    then TutorVerificationStatus.pending
    else if is_empty statuses
    then TutorVerificationStatus.unverified
    else TutorVerificationStatus.rejected

-- The statuses of a tutor's documents.
unfoldable pub statuses_of : Uuid → List TutorDocument → List DocumentReviewStatus
statuses_of tutor ds = map (λ d. d.review_status) (select (λ d. d.tutor_user_id == tutor) ds)
