-- ===== src/Reviews/Create.antt =====
-- reviews.service.ts: `create`.
use hktutor.Shared.{[], ◌∷◌, ℕ, Bool, Text, if◌then◌else◌, ◌==◌, Option, ◌&&◌, ◌++◌, any, not}
use hktutor.Database.Actions.{◌>>=◌, ◌>>◌, Action, reads, pure, transaction}
use hktutor.Database.Values.{
  has_code, Value, record_not_found, unique_violation, foreign_key_violation,
}
use hktutor.Database.Exceptions.{
  thrown, Exception, review_already_exists, booking_not_completed, booking_not_found,
}
use hktutor.Database.Schema.{Booking, Review, Uuid, Store, Time}
use hktutor.Reviews.Ratings.{refresh_locked_tutor_review_rating}
use hktutor.Database.Results.{ok, throw, or_throw, throw_if}
use hktutor.Reviews.Checks.{check_reviewable, is_completed, is_review_for}
use hktutor.Database.Queries.{find_booking}

pub record ReviewInput : Type 0 where
  pub booking_id : Uuid
  pub student_user_id : Uuid
  pub clarity : ℕ
  pub punctuality : ℕ
  pub preparation : ℕ
  pub feedback : Text

-- `Review_booking_evidence_fkey`: the booking, of this student and tutor, is completed.
abbrev pub is_evidence : Review → Booking → Bool
is_evidence r b =
    b.id == r.booking_id
    && b.student_user_id == r.author_student_user_id
    && b.tutor_profile_id == r.tutor_profile_id
    && is_completed b.status

abbrev add_row : Review → Action Review
add_row r s = (ok r, record s { reviews = s.reviews ++ r ∷ [] })

-- `tx.review.create`
unfoldable pub insert_review : Review → Action Review
insert_review r = do
  reads (λ s. throw_if (any (is_review_for r.booking_id) s.reviews) (thrown unique_violation))
  reads (λ s. throw_if (not (any (is_evidence r) s.bookings)) (thrown foreign_key_violation))
  add_row r

abbrev pub review_of : ReviewInput → Booking → Uuid → Time → Review
review_of input b id now = record {
  id = id;
  booking_id = input.booking_id;
  author_student_user_id = input.student_user_id;
  tutor_profile_id = b.tutor_profile_id;
  clarity = input.clarity;
  punctuality = input.punctuality;
  preparation = input.preparation;
  feedback = input.feedback;
  created_at = now;
}

-- The `catch` of `create`.
unfoldable pub map_review_error : Exception → Exception
unfolding has_code
map_review_error (thrown v) =
    if has_code "P2002" v
    then review_already_exists
    else if has_code "P2003" v
    then booking_not_completed
    else thrown v
map_review_error e = e

unfoldable pub catch_review : {A : Type 0} → Action A → Action A
unfolding map_review_error
catch_review m s =
    let (r, t) = m s in elim r [ ok a ↦ (ok a, t) | throw e ↦ (throw (map_review_error e), t) ]

-- The body of the transaction of `create`.
unfoldable pub write_review : ReviewInput → Uuid → Time → Action Review
unfolding check_reviewable insert_review refresh_locked_tutor_review_rating
write_review input id now = do
  current ← reads (λ s. or_throw (find_booking input.booking_id s) (thrown record_not_found))
  reads (λ s. check_reviewable input.student_user_id current)
  review ← insert_review (review_of input current id now)
  refresh_locked_tutor_review_rating current.tutor_profile_id
  pure review

-- `create`. `seen` is the store when the row was read, ahead of the transaction; `id` and `now` are
-- what the database gives the new row.
unfoldable pub create_review : ReviewInput → Uuid → Time → Store → Option Value → Action Review
unfolding check_reviewable write_review catch_review
create_review input id now seen refusal = do
  booking ← reads (λ s. or_throw (find_booking input.booking_id seen) booking_not_found)
  reads (λ s. check_reviewable input.student_user_id booking)
  catch_review (transaction refusal (write_review input id now))
