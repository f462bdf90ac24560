-- ===== src/Reviews/Ratings.antt =====
-- review-ratings.ts: the totals of a tutor's reviews, the average that is shown, and the columns of
-- the profile that cache it; reviews.service.ts: `overallRatingOf`.
use hktutor.Shared.{
  [], ◌∷◌, none, some, ℕ, Option, Bool, List, if◌then◌else◌, ◌+◌, count_where, ltb, ◌*◌, ◌==◌,
}
use hktutor.Database.Actions.{◌>>=◌, Action, reads, update_profiles, fail_if}
use hktutor.Database.Values.{record_not_found}
use hktutor.Database.Exceptions.{thrown}
use hktutor.Database.Schema.{Review, TutorProfile, Uuid, Time}
use hktutor.Bookings.Amounts.{round_half_up}
use hktutor.Database.Results.{ok}

pub record TutorReviewTotals : Type 0 where
  pub dimension_total : ℕ
  pub review_count : ℕ
  pub latest_review_at : Option Time

-- `where: { tutorProfileId }`
abbrev pub is_review_of : Uuid → Review → Bool
is_review_of tutor r = r.tutor_profile_id == tutor

-- `_sum` of a column
unfoldable pub sum_where : (Review → Bool) → (Review → ℕ) → List Review → ℕ
sum_where w column [] = 0
sum_where w column (r ∷ rs) = (if w r then column r else 0) + sum_where w column rs

unfoldable pub later_of : Option Time → Time → Option Time
later_of none t = some t
later_of (some u) t = if ltb u t then some t else some u

-- `_max` of `createdAt`
unfoldable pub latest_where : (Review → Bool) → List Review → Option Time
unfolding later_of
latest_where w [] = none
latest_where w (r ∷ rs) =
    let rest = latest_where w rs in if w r then later_of rest r.created_at else rest

-- `readTutorReviewTotals`
unfoldable pub read_tutor_review_totals : Uuid → List Review → TutorReviewTotals
unfolding sum_where latest_where
read_tutor_review_totals tutor reviews = record {
  dimension_total =
      sum_where (is_review_of tutor) (λ r. r.clarity) reviews
      + sum_where (is_review_of tutor) (λ r. r.punctuality) reviews
      + sum_where (is_review_of tutor) (λ r. r.preparation) reviews;
  review_count = count_where (is_review_of tutor) reviews;
  latest_review_at = latest_where (is_review_of tutor) reviews;
}

-- `tutorReviewDisplayAverage`, in hundredths.
unfoldable pub tutor_review_display_average : TutorReviewTotals → Option ℕ
unfolding round_half_up
tutor_review_display_average totals =
    if totals.review_count == 0
    then none
    else some (round_half_up (totals.dimension_total * 100) (totals.review_count * 3))

-- `overallRatingOf`, in hundredths.
unfoldable pub overall_rating_of : Review → ℕ
unfolding round_half_up
overall_rating_of r = round_half_up ((r.clarity + r.punctuality + r.preparation) * 100) 3

unfoldable pub with_totals : TutorReviewTotals → TutorProfile → TutorProfile
unfolding tutor_review_display_average
with_totals totals p = record p {
  rating_average = tutor_review_display_average totals;
  review_count = totals.review_count;
  rating_updated_at = totals.latest_review_at;
}

-- `refreshLockedTutorReviewRating`
unfoldable pub refresh_locked_tutor_review_rating : Uuid → Action (Unit {0})
unfolding read_tutor_review_totals with_totals
refresh_locked_tutor_review_rating tutor = do
  totals ← reads (λ s. ok (read_tutor_review_totals tutor s.reviews))
  count ← update_profiles (λ p. p.user_id == tutor) (with_totals totals)
  fail_if (count == 0) (thrown record_not_found)
