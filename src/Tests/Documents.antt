-- ===== src/Tests/Documents.antt =====
-- Runs of the review of documents.
use hktutor.Shared.{refl, [], ◌∷◌, none, some, All, any, ◌==◌, ◌≡◌, ◌&&◌, arith, true}
use hktutor.Database.Enums.{Role, DocumentReviewStatus, TutorVerificationStatus}
use hktutor.Documents.Statuses.{
  QualificationStatus, derive_tutor_verification_status, statuses_of, is_verified_document,
}
use hktutor.Documents.Checks.{
  QualificationDecision, DocumentUser, ReviewDecision, check_review, trimmed, is_invalid_reason,
}
use hktutor.Database.Results.{ok}
use hktutor.Tests.Data.{no_bookings, thomas_profile}
use hktutor.Database.Schema.{Store, TutorDocument, TutorProfile}
use hktutor.Documents.Review.{review, write_decision, catch_decision, update_tutor_verification}
use hktutor.Bookings.Selection.{find_public_tutor, is_public_tutor}
use hktutor.Documents.Derived.{IsDerived}
use hktutor.Documents.Decided.{review-IsDerived, review-once, find_public_tutor-verified}

abbrev diploma : TutorDocument
diploma = record {
  id = 70;
  tutor_user_id = 2;
  document_type = 1;
  object_path = 900;
  original_name = [];
  mime_type = 1;
  size_bytes = 1000;
  review_status = DocumentReviewStatus.pending;
  reviewer_user_id = none;
  reviewed_at = none;
  rejection_reason = none;
  created_at = 10;
}

abbrev pending_thomas : TutorProfile
pending_thomas = record thomas_profile { verification_status = TutorVerificationStatus.pending }

abbrev uploaded : Store
uploaded = record no_bookings { documents = diploma ∷ []; tutor_profiles = pending_thomas ∷ [] }

abbrev administrator : DocumentUser
administrator = record { id = 3; role = Role.admin }

abbrev approving : ReviewDecision
approving = record { document_id = 70; decision = QualificationDecision.approved; reason = none }

abbrev refusing : ReviewDecision
refusing = record {
  document_id = 70;
  decision = QualificationDecision.rejected;
  reason = some (b'x' ∷ []);
}

abbrev after_approval : Store
after_approval = (review administrator approving 500 none uploaded).1

approval : review administrator approving 500 none uploaded ≡ (
  ok (record {
    document_id = 70;
    status = QualificationStatus.approved;
    reviewed_at = 500;
    reviewed_by = 3;
    tutor_verification_status = TutorVerificationStatus.verified;
  }),
  after_approval,
)
unfolding review write_decision catch_decision update_tutor_verification check_review
    derive_tutor_verification_status statuses_of trimmed is_invalid_reason
approval = refl

uploaded-IsDerived : All (IsDerived uploaded.documents) uploaded.tutor_profiles
unfolding derive_tutor_verification_status statuses_of
uploaded-IsDerived = (refl, tt)

review-IsDerived_example : All (IsDerived after_approval.documents) after_approval.tutor_profiles
review-IsDerived_example =
    review-IsDerived administrator approving 500 none uploaded (omega arith) uploaded-IsDerived

review-once_example : (review administrator refusing 600 none after_approval).1 ≡ after_approval
review-once_example =
    review-once administrator approving 500 none uploaded refusing administrator 600 none
      after_approval
      (record {
        document_id = 70;
        status = QualificationStatus.approved;
        reviewed_at = 500;
        reviewed_by = 3;
        tutor_verification_status = TutorVerificationStatus.verified;
      })
      approval (omega arith) refl

abbrev verified_tables : Store
verified_tables = record no_bookings {
  documents = record diploma { review_status = DocumentReviewStatus.verified } ∷ [];
  tutor_profiles = thomas_profile ∷ [];
}

verified_tables-IsDerived : All (IsDerived verified_tables.documents) verified_tables.tutor_profiles
unfolding derive_tutor_verification_status statuses_of
verified_tables-IsDerived = (refl, tt)

public_thomas : find_public_tutor 2 verified_tables ≡ some thomas_profile
unfolding find_public_tutor is_public_tutor
public_thomas = refl

find_public_tutor-verified_example :
    any
      (λ d. d.tutor_user_id == 2 && is_verified_document d.review_status)
      verified_tables.documents
    ≡ true
find_public_tutor-verified_example =
    find_public_tutor-verified 2 verified_tables thomas_profile verified_tables-IsDerived
      public_thomas
