-- ===== src/Reviews/Effects.antt =====
-- What `create` of reviews.service.ts leaves in the tables.
use hktutor.Shared.{
  [], ◌∷◌, some, inl, inr, Option, ◌++◌, update_where, ◌≡◌, Option-cases, ◌==◌, any, arith, false,
}
use hktutor.Database.Results.{ok, throw, Result-cases}
use hktutor.Reviews.Create.{
  ReviewInput, write_review, insert_review, review_of, create_review, catch_review,
}
use hktutor.Database.Schema.{Uuid, Time, Booking, Store, Review}
use hktutor.Database.Queries.{find_booking}
use hktutor.Database.Values.{Value}
use hktutor.Reviews.Ratings.{
  refresh_locked_tutor_review_rating, with_totals, read_tutor_review_totals,
}
use hktutor.Reviews.Checks.{check_reviewable, is_review_for}
use hktutor.Database.Exceptions.{Exception}

-- The tables that a stored review leaves.
abbrev pub stored : ReviewInput → Uuid → Time → Booking → Store → Store
stored input id now b s =
    let reviews = s.reviews ++ review_of input b id now ∷ [] in
    record s {
      reviews = reviews;
      tutor_profiles =
          update_where (λ p. p.user_id == b.tutor_profile_id)
            (with_totals (read_tutor_review_totals b.tutor_profile_id reviews)) s.tutor_profiles;
    }

-- What holds where a review is stored.
pub record IsStored (input : ReviewInput) (id : Uuid) (now : Time) (s t : Store) (r : Review)
    : Type 0 where
  pub booking : Booking
  pub found : find_booking input.booking_id s ≡ some booking
  pub checked : check_reviewable input.student_user_id booking ≡ ok tt
  pub first : any (is_review_for input.booking_id) s.reviews ≡ false
  pub row : r ≡ review_of input booking id now
  pub left : t ≡ stored input id now booking s

module _ (input : ReviewInput) (id : Uuid) (now : Time) (s : Store) where
  pub write_review-ok :
      (t : Store) (r : Review)
      → write_review input id now s ≡ (ok r, t)
      → IsStored input id now s t r
  unfolding write_review insert_review refresh_locked_tutor_review_rating
  write_review-ok t r h = elim (Option-cases (find_booking input.booking_id s)) [
    | inl missing ↦ ground arith
    | inr (b, found) ↦ elim (Result-cases (check_reviewable input.student_user_id b)) [
      | inr (e, failed) ↦ ground arith
      | inl (u, passed) ↦ record {
        booking = b;
        found = found;
        checked = ground arith;
        first = ground arith;
        row = ground arith;
        left = ground arith;
      }
    ]
  ]

module _ (input : ReviewInput) (id : Uuid) (now : Time) (seen : Store) (refusal : Option Value)
    (s : Store) where
  pub create_review-ok :
      (t : Store) (r : Review)
      → create_review input id now seen refusal s ≡ (ok r, t)
      → IsStored input id now s t r
  unfolding create_review catch_review
  create_review-ok t r h = elim (Result-cases (write_review input id now s).0) [
    | inl (q, written) ↦ write_review-ok input id now s t r (ground arith)
    | inr (e, failed) ↦ ground arith
  ]

  -- A review that is not stored leaves the tables as they were.
  pub create_review-throw :
      (t : Store) (e : Exception) → create_review input id now seen refusal s ≡ (throw e, t) → t ≡ s
  unfolding create_review catch_review
  create_review-throw t e h = elim (Result-cases (write_review input id now s).0) [
    | inl (q, written) ↦ ground arith
    | inr (f, failed) ↦ ground arith
  ]
