-- ===== src/Reviews/Once.antt =====
-- One review of a booking: `create` of reviews.service.ts.
use hktutor.Shared.{
  refl, [], ◌∷◌, none, some, inl, inr, ◌≡◌, Option, true, arith, count_where, ◌≢◌, any-eq_false,
  count_where-append, any, any-append, ==_self, ap, ◌++◌, ◌∙◌,
}
use hktutor.Database.Enums.{is_completed}
use hktutor.Database.Results.{ok, throw, Result-cases}
use hktutor.Reviews.Checks.{check_reviewable, is_review_for}
use hktutor.Reviews.Create.{
  ReviewInput, create_review, review_of, catch_review, write_review, insert_review,
  map_review_error,
}
use hktutor.Database.Schema.{Uuid, Booking, Time, Store, Review}
use hktutor.Database.Values.{
  Value, has_code, read_property, is_code_in, lookup_field, unique_violation,
}
use hktutor.Database.Queries.{find_booking}
use hktutor.Database.Exceptions.{review_already_exists, thrown}
use hktutor.Reviews.Effects.{create_review-ok, IsStored, create_review-throw}

check_reviewable-ok :
    (student : Uuid) (b : Booking)
    → check_reviewable student b ≡ ok tt
    → (b.student_user_id ≡ student) × (is_completed b.status ≡ true)
unfolding check_reviewable
check_reviewable-ok student b h = (ground arith, ground arith)

-- A review that is accepted is of a completed booking of its author, takes over that booking's
-- tutor and the ratings that were sent, and is the only one of the booking: there was none before
-- it, and the reviews of every other booking are as many as before.
pub create_review-once :
    (input : ReviewInput) (id : Uuid) (now : Time) (seen s t : Store) (refusal : Option Value)
    (r : Review)
    → create_review input id now seen refusal s ≡ (ok r, t)
    → ((b : Booking) × (find_booking input.booking_id s ≡ some b)
        × (b.student_user_id ≡ input.student_user_id)
        × (is_completed b.status ≡ true)
        × (r.tutor_profile_id ≡ b.tutor_profile_id))
      × (r.clarity ≡ input.clarity)
      × (r.punctuality ≡ input.punctuality)
      × (r.preparation ≡ input.preparation)
      × (count_where (is_review_for input.booking_id) s.reviews ≡ 0)
      × (count_where (is_review_for input.booking_id) t.reviews ≡ 1)
      × ((other : Uuid)
          → other ≢ input.booking_id
          → count_where (is_review_for other) t.reviews
            ≡ count_where (is_review_for other) s.reviews)
create_review-once input id now seen s t refusal r h =
    let effect = create_review-ok input id now seen refusal s t r h in
    let b = effect.booking in
    let left : t.reviews ≡ s.reviews ++ review_of input b id now ∷ [] =
      ap (λ u. u.reviews) effect.left in
    let (own, done) = check_reviewable-ok input.student_user_id b effect.checked in
    let before = any-eq_false (is_review_for input.booking_id) s.reviews effect.first in
    let split = λ (i : Uuid).
      count_where-append (is_review_for i) s.reviews (review_of input b id now ∷ []) in
    (
      (b, effect.found, own, done, ap (λ q. q.tutor_profile_id) effect.row),
      ap (λ q. q.clarity) effect.row,
      ap (λ q. q.punctuality) effect.row,
      ap (λ q. q.preparation) effect.row,
      before,
      rw left (ground (arith, split input.booking_id)),
      λ other apart. rw left (ground (arith, split other, apart)),
    )

review_stored :
    (input : ReviewInput) (id : Uuid) (now : Time) (s t : Store) (r : Review)
    → IsStored input id now s t r
    → any (is_review_for input.booking_id) t.reviews ≡ true
review_stored input id now s t r effect =
    rw
      (
        effect.left,
        any-append (is_review_for input.booking_id) s.reviews
            (review_of input effect.booking id now),
      )
      (ground (arith, ==_self input.booking_id))

unique_violation_mapped : map_review_error (thrown unique_violation) ≡ review_already_exists
unfolding map_review_error has_code read_property is_code_in lookup_field
unique_violation_mapped = refl

-- An insert that meets the unique key of the booking.
insert_review-present :
    (r : Review) (s : Store)
    → any (is_review_for r.booking_id) s.reviews ≡ true
    → insert_review r s ≡ (throw (thrown unique_violation), s)
unfolding insert_review
insert_review-present r s taken = ground arith

write_review-present :
    (input : ReviewInput) (id : Uuid) (now : Time) (s : Store) (b : Booking)
    → find_booking input.booking_id s ≡ some b
    → check_reviewable input.student_user_id b ≡ ok tt
    → any (is_review_for input.booking_id) s.reviews ≡ true
    → write_review input id now s ≡ (throw (thrown unique_violation), s)
unfolding write_review
write_review-present input id now s b found passed taken =
    let refused = insert_review-present (review_of input b id now) s taken in ground arith

repeated :
    (input : ReviewInput) (id : Uuid) (now : Time) (s : Store) (b : Booking)
    → find_booking input.booking_id s ≡ some b
    → check_reviewable input.student_user_id b ≡ ok tt
    → any (is_review_for input.booking_id) s.reviews ≡ true
    → create_review input id now s none s ≡ (throw review_already_exists, s)
unfolding create_review catch_review
repeated input id now s b found passed taken =
    let refused = write_review-present input id now s b found passed taken in
    let mapped = unique_violation_mapped in ground arith

-- A booking is reviewed once: after an accepted review, a further attempt for the booking by whom
-- ever leaves the tables as they are, whatever it had read before; and where it is the author who
-- repeats it, having read the tables as they are, and the database does not refuse the transaction,
-- the answer is `REVIEW_ALREADY_EXISTS`.
pub create_review-again :
    (input again : ReviewInput) (id id' : Uuid) (now now' : Time) (seen seen' s t : Store)
    (refusal refusal' : Option Value) (r : Review)
    → create_review input id now seen refusal s ≡ (ok r, t)
    → again.booking_id ≡ input.booking_id
    → ((create_review again id' now' seen' refusal' t).1 ≡ t)
      × (again.student_user_id ≡ input.student_user_id
          → create_review again id' now' t none t ≡ (throw review_already_exists, t))
create_review-again input again id id' now now' seen seen' s t refusal refusal' r h same =
    let effect = create_review-ok input id now seen refusal s t r h in
    let taken : any (is_review_for again.booking_id) t.reviews ≡ true =
      ap (λ i. any (is_review_for i) t.reviews) same ∙ review_stored input id now s t r effect in
    let found : find_booking again.booking_id t ≡ some effect.booking =
      ap (λ i. find_booking i t) same
      ∙ ap (find_booking input.booking_id) effect.left
      ∙ effect.found in
    (
      elim (Result-cases (create_review again id' now' seen' refusal' t).0) [
        | inl (q, accepted) ↦
            let second =
              create_review-ok again id' now' seen' refusal' t
                (create_review again id' now' seen' refusal' t).1 q (ground arith) in
            absurd (ground (arith, second.first))
        | inr (e, failed) ↦
            create_review-throw again id' now' seen' refusal' t
              (create_review again id' now' seen' refusal' t).1 e (ground arith)
      ],
      λ own. repeated again id' now' t effect.booking found (rw own effect.checked) taken,
    )
