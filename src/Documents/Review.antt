-- ===== src/Documents/Review.antt =====
-- qualification-documents.service.ts: `updateTutorVerification` and `review`.
use hktutor.Shared.{none, some, ℕ, Option, Text, Bool, find, ◌&&◌, ◌==◌, not, any, ◌!=◌}
use hktutor.Database.Exceptions.{
  document_not_found, tutor_profile_missing, document_already_reviewed, review_not_saved, Exception,
  thrown,
}
use hktutor.Documents.Checks.{
  QualificationDecision, DocumentUser, check_review, trimmed, ReviewDecision,
}
use hktutor.Database.Enums.{DocumentReviewStatus, AuditAction, TutorVerificationStatus}
use hktutor.Database.Results.{ok, throw, or_throw, throw_if}
use hktutor.Database.Actions.{
  Action, ◌>>=◌, ◌>>◌, reads, update_documents, update_profiles, transaction, fail_if, pure,
  insert_audit,
}
use hktutor.Documents.Statuses.{
  derive_tutor_verification_status, QualificationStatus, statuses_of, is_pending_document,
  to_qualification_status,
}
use hktutor.Database.Schema.{Uuid, Store, TutorProfile, Time, TutorDocument}
use hktutor.Database.Values.{Value, record_not_found}
use hktutor.Bookings.Selection.{is_active_tutor}
use hktutor.Database.Queries.{find_user}

abbrev pub with_status : TutorVerificationStatus → TutorProfile → TutorProfile
with_status status p = record p { verification_status = status }

-- `updateTutorVerification`
unfoldable pub update_tutor_verification : Uuid → Action TutorVerificationStatus
unfolding derive_tutor_verification_status statuses_of
update_tutor_verification tutor = do
  status ← reads (λ s. ok (derive_tutor_verification_status (statuses_of tutor s.documents)))
  count ← update_profiles (λ p. p.user_id == tutor) (with_status status)
  fail_if (count == 0) (thrown record_not_found)
  pure status

-- `id, tutor: ACTIVE_TUTOR_WHERE`
abbrev pub is_document_of_active : Uuid → Store → TutorDocument → Bool
is_document_of_active id s d = d.id == id && is_active_tutor (find_user d.tutor_user_id s)

-- `where` of the update in `review`
abbrev pub is_reviewable_document : Uuid → Store → TutorDocument → Bool
is_reviewable_document id s d = is_document_of_active id s d && is_pending_document d.review_status

abbrev pub decided_status : QualificationDecision → DocumentReviewStatus
decided_status QualificationDecision.approved = DocumentReviewStatus.verified
decided_status QualificationDecision.rejected = DocumentReviewStatus.rejected

-- `approved ? null : (reason ?? null)`
abbrev pub kept_reason : QualificationDecision → Option Text → Option Text
kept_reason QualificationDecision.approved reason = none
kept_reason QualificationDecision.rejected reason = reason

abbrev pub reviewed_row : DocumentUser → ReviewDecision → Time → TutorDocument → TutorDocument
reviewed_row user dto now d = record d {
  review_status = decided_status dto.decision;
  reviewer_user_id = some user.id;
  reviewed_at = some now;
  rejection_reason = kept_reason dto.decision (trimmed dto.reason);
}

pub record ReviewResponse : Type 0 where
  pub document_id : Uuid
  pub status : QualificationStatus
  pub reviewed_at : Time
  pub reviewed_by : Uuid
  pub tutor_verification_status : TutorVerificationStatus

abbrev update_reviewable : DocumentUser → ReviewDecision → Time → Action ℕ
update_reviewable user dto now s =
    update_documents (is_reviewable_document dto.document_id s) (reviewed_row user dto now) s

-- The body of the transaction of `review`.
unfoldable pub write_decision : DocumentUser → ReviewDecision → Time → Action ReviewResponse
unfolding update_tutor_verification trimmed
write_decision user dto now = do
  document ← reads (λ s.
      or_throw (find (is_document_of_active dto.document_id s) s.documents) document_not_found)
  reads (λ s.
      throw_if (not (any (λ p. p.user_id == document.tutor_user_id) s.tutor_profiles))
        tutor_profile_missing)
  count ← update_reviewable user dto now
  fail_if (count != 1) document_already_reviewed
  status ← update_tutor_verification document.tutor_user_id
  insert_audit (record {
    document_id = dto.document_id;
    actor_user_id = user.id;
    action = AuditAction.reviewed;
    decision = some (decided_status dto.decision);
    reason = trimmed dto.reason;
    created_at = now;
  })
  pure (record {
    document_id = dto.document_id;
    status = to_qualification_status (decided_status dto.decision);
    reviewed_at = now;
    reviewed_by = user.id;
    tutor_verification_status = status;
  })

-- `error instanceof NotFoundException || error instanceof ConflictException`
unfoldable pub map_decision_error : Exception → Exception
map_decision_error document_not_found = document_not_found
map_decision_error tutor_profile_missing = tutor_profile_missing
map_decision_error document_already_reviewed = document_already_reviewed
map_decision_error e = review_not_saved

unfoldable pub catch_decision : {A : Type 0} → Action A → Action A
unfolding map_decision_error
catch_decision m s =
    let (r, t) = m s in elim r [ ok a ↦ (ok a, t) | throw e ↦ (throw (map_decision_error e), t) ]

-- `review`
unfoldable pub review : DocumentUser → ReviewDecision → Time → Option Value → Action ReviewResponse
unfolding check_review write_decision catch_decision
review user dto now refusal = do
  reads (λ s. check_review user dto)
  catch_decision (transaction refusal (write_decision user dto now))
