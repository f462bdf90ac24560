-- ===== src/Documents/Derived.antt =====
-- The verification status that a profile derives from its documents: `review` of
-- qualification-documents.service.ts.
use hktutor.Shared.{
  some, inl, inr, List, Bool, Option, ◌==◌, ◌≡◌, find, true, Option-cases, arith, count_where,
  update_where,
}
use hktutor.Database.Results.{ok, throw, Result-cases}
use hktutor.Database.Schema.{Uuid, TutorDocument, Time, TutorProfile, Store}
use hktutor.Documents.Checks.{DocumentUser, ReviewDecision, is_admin, check_review}
use hktutor.Documents.Statuses.{derive_tutor_verification_status, statuses_of}
use hktutor.Documents.Review.{
  ReviewResponse, review, catch_decision, is_document_of_active, write_decision,
  update_tutor_verification, is_reviewable_document, reviewed_row, with_status,
}
use hktutor.Database.Values.{Value}
use hktutor.Database.Exceptions.{Exception}

abbrev pub is_document : Uuid → TutorDocument → Bool
is_document i d = d.id == i

-- A profile shows the status that its documents derive.
abbrev pub IsDerived : List TutorDocument → TutorProfile → Type 0
IsDerived ds p = p.verification_status ≡ derive_tutor_verification_status (statuses_of p.user_id ds)

-- What holds where a decision is stored.
pub record IsDecided (user : DocumentUser) (dto : ReviewDecision) (now : Time) (s t : Store)
    (r : ReviewResponse) : Type 0 where
  pub document : TutorDocument
  pub found : find (is_document_of_active dto.document_id s) s.documents ≡ some document
  pub admin : is_admin user.role ≡ true
  pub single : count_where (is_reviewable_document dto.document_id s) s.documents ≡ 1
  pub documents :
      t.documents
      ≡ update_where
          (is_reviewable_document dto.document_id s)
          (reviewed_row user dto now)
          s.documents
  pub profiles :
      t.tutor_profiles
      ≡ update_where
          (λ p. p.user_id == document.tutor_user_id)
          (with_status (
            derive_tutor_verification_status (
              statuses_of document.tutor_user_id (
                update_where
                  (is_reviewable_document dto.document_id s)
                  (reviewed_row user dto now)
                  s.documents))))
          s.tutor_profiles
  pub users : t.users ≡ s.users
  pub answer : (r.document_id ≡ dto.document_id) × (r.reviewed_by ≡ user.id)

module _ (user : DocumentUser) (dto : ReviewDecision) (now : Time) (refusal : Option Value)
    (s : Store) where
  pub review-ok :
      (t : Store) (r : ReviewResponse)
      → review user dto now refusal s ≡ (ok r, t)
      → IsDecided user dto now s t r
  unfolding review write_decision catch_decision update_tutor_verification check_review
  review-ok t r h =
      elim (Option-cases (find (is_document_of_active dto.document_id s) s.documents)) [
        | inl missing ↦ ground arith
        | inr (d, found) ↦ record {
          document = d;
          found = found;
          admin = ground arith;
          single = ground arith;
          documents = ground arith;
          profiles = ground arith;
          users = ground arith;
          answer = (ground arith, ground arith);
        }
      ]

  -- A review that is refused changes nothing.
  pub review-throw :
      (t : Store) (e : Exception) → review user dto now refusal s ≡ (throw e, t) → t ≡ s
  unfolding review catch_decision
  review-throw t e h = elim (Result-cases (write_decision user dto now s).0) [
    | inl (r, written) ↦ ground arith
    | inr (f, failed) ↦ ground arith
  ]
