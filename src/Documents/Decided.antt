-- ===== src/Documents/Decided.antt =====
-- What a review decides for good: `review` of qualification-documents.service.ts, and the public
-- tutors of tutors/public-tutor-access.ts.
use hktutor.Shared.{
  refl, [], ◌∷◌, some, inl, inr, List, Bool, any, ◌≡◌, All, Option, false, ◌==◌, true, arith,
  count_where, update_where, ◌&&◌, All-find, Bool-cases, if◌then◌else◌, ap, ◌≤◌, sym, ◌∙◌, ==→eq,
  count_where-update_where_less, count_where-le, find-fits, All-single, All-update_where_to,
}
use hktutor.Database.Enums.{TutorVerificationStatus, DocumentReviewStatus, is_verified}
use hktutor.Documents.Checks.{DocumentUser, QualificationDecision, ReviewDecision}
use hktutor.Database.Results.{ok, Result-cases}
use hktutor.Documents.Statuses.{
  derive_tutor_verification_status, statuses_of, is_pending_document, is_verified_document,
}
use hktutor.Bookings.Selection.{find_public_tutor, is_public_tutor}
use hktutor.Database.Schema.{TutorDocument, Uuid, Store, Time, TutorProfile}
use hktutor.Documents.Review.{
  decided_status, ReviewResponse, review, with_status, is_reviewable_document, reviewed_row,
  is_document_of_active,
}
use hktutor.Database.Values.{Value}
use hktutor.Documents.Derived.{IsDerived, is_document, review-throw, review-ok}
use hktutor.Paging.Order.{All-weaken}

-- The statuses of a tutor's documents do not see a change of another tutor's.
statuses_other :
    (tutor other : Uuid) (w : TutorDocument → Bool) (f : TutorDocument → TutorDocument)
    (ds : List TutorDocument)
    → ((d : TutorDocument) → (f d).tutor_user_id ≡ d.tutor_user_id)
    → (other == tutor) ≡ false
    → All (λ d. w d ≡ true → d.tutor_user_id ≡ tutor) ds
    → statuses_of other (update_where w f ds) ≡ statuses_of other ds
unfolding statuses_of
statuses_other tutor other w f [] keep apart own = refl
statuses_other tutor other w f (d ∷ ds) keep apart own =
    let ih = statuses_other tutor other w f ds keep apart own.1 in
    elim (Bool-cases (w d)) [
      | inr missed ↦ rw missed (elim (Bool-cases (d.tutor_user_id == other)) [
        | inl theirs ↦ rw theirs (ap (λ r. d.review_status ∷ r) ih)
        | inr foreign ↦ rw foreign ih
      ])
      | inl hit ↦
          let foreign : (d.tutor_user_id == other) ≡ false = ground (arith, own.0 hit) in
          let foreign' : ((f d).tutor_user_id == other) ≡ false =
            ap (λ i. i == other) (keep d) ∙ foreign in
          rw (hit, foreign, foreign') ih
    ]

rederived :
    (ds : List TutorDocument) (p : TutorProfile) (tutor : Uuid) (w : TutorDocument → Bool)
    (f : TutorDocument → TutorDocument)
    → ((d : TutorDocument) → (f d).tutor_user_id ≡ d.tutor_user_id)
    → All (λ x. w x ≡ true → x.tutor_user_id ≡ tutor) ds
    → IsDerived ds p
    → IsDerived (update_where w f ds) (
        if p.user_id == tutor
        then with_status
            (derive_tutor_verification_status (statuses_of tutor (update_where w f ds)))
            p
        else p)
rederived ds p tutor w f keep own before = elim (Bool-cases (p.user_id == tutor)) [
  | inl mine ↦ rw mine (
      ap (λ i. derive_tutor_verification_status (statuses_of i (update_where w f ds)))
        (sym (==→eq p.user_id tutor mine)))
  | inr other ↦ rw other (
      before
      ∙ ap derive_tutor_verification_status
          (sym (statuses_other tutor p.user_id w f ds keep other own)))
]

not_pending :
    (decision : QualificationDecision) → is_pending_document (decided_status decision) ≡ false
not_pending QualificationDecision.approved = refl
not_pending QualificationDecision.rejected = refl

module _ (user : DocumentUser) (dto : ReviewDecision) (now : Time) (refusal : Option Value)
    (s : Store) where
  -- Where the documents' ids are unique and each profile shows the status that its documents
  -- derive, this holds behind a review, whatever it returns: the tutor is verified with a verified
  -- document, else pending with a pending one, else rejected, and unverified without a document.
  pub review-IsDerived :
      count_where (is_document dto.document_id) s.documents ≤ 1
      → All (IsDerived s.documents) s.tutor_profiles
      → let t = (review user dto now refusal s).1 in All (IsDerived t.documents) t.tutor_profiles
  review-IsDerived unique h = elim (Result-cases (review user dto now refusal s).0) [
    | inr (e, failed) ↦
        rw (review-throw user dto now refusal s (review user dto now refusal s).1 e (ground arith))
          h
    | inl (r, accepted) ↦
        let decided =
          review-ok user dto now refusal s (review user dto now refusal s).1 r (ground arith) in
        let d = decided.document in
        let w = is_reviewable_document dto.document_id s in
        let f = reviewed_row user dto now in
        let fits = find-fits (is_document_of_active dto.document_id s) s.documents decided.found in
        let alone =
          All-single (is_document_of_active dto.document_id s) (is_document dto.document_id)
            s.documents decided.found (ground arith) unique in
        let own =
          All-weaken (λ x. is_document dto.document_id x ≡ true → x ≡ d)
            (λ x. w x ≡ true → x.tutor_user_id ≡ d.tutor_user_id) s.documents
            (λ x same hit. ap (λ y. y.tutor_user_id) (same (ground arith))) alone in
        let after = update_where w f s.documents in
        let step = λ (p : TutorProfile) (before : IsDerived s.documents p).
          rederived s.documents p d.tutor_user_id w f (λ x. refl) own before in
        rw (decided.documents, decided.profiles)
          (All-update_where_to (IsDerived s.documents) (IsDerived after)
            (λ p. p.user_id == d.tutor_user_id)
            (with_status (derive_tutor_verification_status (statuses_of d.tutor_user_id after)))
            s.tutor_profiles step h)
  ]

  -- A document is reviewed once: where ids are unique, no later review of a document that was
  -- decided is stored, by whom ever and whatever it decides, and the tables stay as they are.
  pub review-once :
      (again : ReviewDecision) (user' : DocumentUser) (now' : Time) (refusal' : Option Value)
      (t : Store) (r : ReviewResponse)
      → review user dto now refusal s ≡ (ok r, t)
      → count_where (is_document dto.document_id) s.documents ≤ 1
      → again.document_id ≡ dto.document_id
      → (review user' again now' refusal' t).1 ≡ t
  review-once again user' now' refusal' t r h unique same =
      elim (Result-cases (review user' again now' refusal' t).0) [
        | inr (e, failed) ↦
            review-throw user' again now' refusal' t (review user' again now' refusal' t).1 e
              (ground arith)
        | inl (q, accepted) ↦
            let first = review-ok user dto now refusal s t r h in
            let second =
              review-ok user' again now' refusal' t (review user' again now' refusal' t).1 q
                (ground arith) in
            let v = λ (d : TutorDocument).
              d.id == dto.document_id && is_pending_document d.review_status in
            let w = is_reviewable_document dto.document_id s in
            let less =
              count_where-update_where_less v w (reviewed_row user dto now) s.documents
                (λ x hit. (ground arith, ground (arith, not_pending dto.decision))) in
            let below =
              count_where-le v (is_document dto.document_id) s.documents (λ x hit. ground arith) in
            let single = first.single in
            let gone : count_where v t.documents ≡ 0 =
              ap (count_where v) first.documents ∙ omega arith in
            let le =
              count_where-le (is_reviewable_document again.document_id t) v t.documents
                (λ x hit. ground arith) in
            absurd (omega (arith, second.single))
      ]

is_verified-eq :
    (v : TutorVerificationStatus) → is_verified v ≡ true → v ≡ TutorVerificationStatus.verified
is_verified-eq TutorVerificationStatus.verified h = refl
is_verified-eq TutorVerificationStatus.unverified h = cc
is_verified-eq TutorVerificationStatus.pending h = cc
is_verified-eq TutorVerificationStatus.rejected h = cc

verified-derived :
    (ss : List DocumentReviewStatus)
    → derive_tutor_verification_status ss ≡ TutorVerificationStatus.verified
    → any is_verified_document ss ≡ true
unfolding derive_tutor_verification_status
verified-derived ss h = ground arith

verified_document :
    (tutor : Uuid) (ds : List TutorDocument)
    → any is_verified_document (statuses_of tutor ds) ≡ true
    → any (λ d. d.tutor_user_id == tutor && is_verified_document d.review_status) ds ≡ true
unfolding statuses_of
verified_document tutor [] h = h
verified_document tutor (d ∷ ds) h = elim (Bool-cases (d.tutor_user_id == tutor)) [
  | inr foreign ↦ rw foreign (verified_document tutor ds (rw foreign at h))
  | inl own ↦ elim (Bool-cases (is_verified_document d.review_status)) [
    | inl good ↦ rw (own, good) refl
    | inr bad ↦ ground (arith, verified_document tutor ds)
  ]
]

-- Where each profile shows the status that its documents derive, a tutor whom the public finds,
-- whether in the list of reviews, of slots or for a booking, has a document that an administrator
-- has verified.
pub find_public_tutor-verified :
    (tutor : Uuid) (s : Store) (p : TutorProfile)
    → All (IsDerived s.documents) s.tutor_profiles
    → find_public_tutor tutor s ≡ some p
    → any (λ d. d.tutor_user_id == tutor && is_verified_document d.review_status) s.documents ≡ true
unfolding find_public_tutor is_public_tutor
find_public_tutor-verified tutor s p derived found =
    let (shown, fits) =
      All-find (IsDerived s.documents) (λ q. is_public_tutor s q && q.user_id == tutor)
        s.tutor_profiles derived found in
    let same : p.user_id ≡ tutor = ==→eq p.user_id tutor (ground arith) in
    let status = is_verified-eq p.verification_status (ground arith) in
    verified_document tutor s.documents (
      ap (λ i. any is_verified_document (statuses_of i s.documents)) (sym same)
      ∙ verified-derived (statuses_of p.user_id s.documents) (sym shown ∙ status))
