-- ===== src/Tests/Reviews.antt =====
-- Runs of the reviews.
use hktutor.Shared.{
  refl, [], ◌∷◌, none, some, ℕ, All, ◌≡◌, arith, map, ◌⊎◌, ap, ◌≤◌, select, true, ◌*◌, count_where,
  ◌≢◌,
}
use hktutor.Database.Results.{ok, throw}
use hktutor.Tests.Data.{completed_booking, tables, thomas_profile}
use hktutor.Database.Schema.{Booking, Review, Store, Uuid}
use hktutor.Reviews.Create.{
  ReviewInput, create_review, review_of, write_review, insert_review, catch_review,
}
use hktutor.Reviews.Ratings.{
  read_tutor_review_totals, tutor_review_display_average, latest_where, sum_where,
  refresh_locked_tutor_review_rating, is_review_of,
}
use hktutor.Bookings.Selection.{find_public_tutor, is_public_tutor}
use hktutor.Paging.Order.{IsDistinct}
use hktutor.Reviews.Lists.{read_reviews, review_key, review_item}
use hktutor.Database.Queries.{find_booking}
use hktutor.Reviews.Cache.{IsCached, create_review-IsCached}
use hktutor.Reviews.Averages.{IsRated, IsHalfUnit, tutor_review_display_average_lem}
use hktutor.Database.Exceptions.{review_already_exists}
use hktutor.Bookings.Amounts.{round_half_up}
use hktutor.Paging.Keys.{is_earlier}
use hktutor.Reviews.Checks.{check_reviewable, is_completed, is_review_for}
use hktutor.Reviews.Once.{create_review-again, create_review-once}
use hktutor.Paging.Pages.{order}
use hktutor.Reviews.Pages.{read_reviews_complete}

abbrev completed_tables : Store
completed_tables = tables (completed_booking ∷ []) [] []

abbrev rating : ReviewInput
rating = record {
  booking_id = 100;
  student_user_id = 1;
  clarity = 5;
  punctuality = 4;
  preparation = 4;
  feedback = [];
}

abbrev thomas_review : Review
thomas_review = review_of rating completed_booking 800 9000

abbrev after_review : Store
after_review = (create_review rating 800 9000 completed_tables none completed_tables).1

reviewed :
    create_review rating 800 9000 completed_tables none completed_tables
    ≡ (ok thomas_review, after_review)
unfolding create_review write_review insert_review check_reviewable
    refresh_locked_tutor_review_rating catch_review
reviewed = refl

create_review-once_example :
    ((b : Booking) × (find_booking 100 completed_tables ≡ some b)
      × (b.student_user_id ≡ 1)
      × (is_completed b.status ≡ true)
      × (thomas_review.tutor_profile_id ≡ b.tutor_profile_id))
    × (thomas_review.clarity ≡ rating.clarity)
    × (thomas_review.punctuality ≡ rating.punctuality)
    × (thomas_review.preparation ≡ rating.preparation)
    × (count_where (is_review_for 100) completed_tables.reviews ≡ 0)
    × (count_where (is_review_for 100) after_review.reviews ≡ 1)
    × ((other : Uuid)
        → other ≢ 100
        → count_where (is_review_for other) after_review.reviews
          ≡ count_where (is_review_for other) completed_tables.reviews)
create_review-once_example =
    create_review-once rating 800 9000 completed_tables completed_tables after_review none
      thomas_review reviewed

create_review-again_example :
    ((create_review rating 801 9500 completed_tables none after_review).1 ≡ after_review)
    × (rating.student_user_id ≡ rating.student_user_id
        → create_review rating 801 9500 after_review none after_review
          ≡ (throw review_already_exists, after_review))
create_review-again_example =
    create_review-again rating rating 800 801 9000 9500 completed_tables completed_tables
      completed_tables after_review none none thomas_review reviewed refl

thomas-IsCached : All (IsCached completed_tables.reviews) completed_tables.tutor_profiles
unfolding tutor_review_display_average read_tutor_review_totals latest_where
thomas-IsCached = (record { average = refl; count = refl; updated = refl }, tt)

create_review-IsCached_example : All (IsCached after_review.reviews) after_review.tutor_profiles
create_review-IsCached_example =
    create_review-IsCached rating 800 9000 completed_tables completed_tables none thomas-IsCached

rated : All IsRated (thomas_review ∷ [])
rated = (
  record {
    clarity = (omega arith, omega arith);
    punctuality = (omega arith, omega arith);
    preparation = (omega arith, omega arith);
  },
  tt,
)

tutor_review_display_average_lem_example :
    let totals = read_tutor_review_totals 2 (thomas_review ∷ []) in
    (totals.review_count ≡ 0) × (tutor_review_display_average totals ≡ none)
    ⊎ ((q : ℕ) × (tutor_review_display_average totals ≡ some q)
        × (100 ≤ q)
        × (q ≤ 500)
        × IsHalfUnit q (totals.dimension_total * 100) (totals.review_count * 3))
tutor_review_display_average_lem_example =
    tutor_review_display_average_lem 2 (thomas_review ∷ []) rated

-- 13 points of 15: 4.33.
average_run :
    tutor_review_display_average (read_tutor_review_totals 2 (thomas_review ∷ [])) ≡ some 433
unfolding tutor_review_display_average read_tutor_review_totals sum_where latest_where round_half_up
average_run = refl

abbrev listed_tables : Store
listed_tables = record completed_tables {
  reviews =
      thomas_review
      ∷ record thomas_review { id = 799; created_at = 9500 }
      ∷ record thomas_review { id = 798; created_at = 9000 }
      ∷ [];
}

shown : find_public_tutor 2 listed_tables ≡ some thomas_profile
unfolding find_public_tutor is_public_tutor
shown = refl

apart : IsDistinct review_key is_earlier listed_tables.reviews
apart = (
  (λ e. ground (arith, ap (λ k. k.time) e), (λ e. ground (arith, ap (λ k. k.id) e), tt)),
  ((λ e. ground (arith, ap (λ k. k.time) e), tt), (tt, tt)),
)

read_reviews_complete_example :
    read_reviews 4 2 none (some 1) listed_tables
    ≡ some (
        map
          (review_item listed_tables)
          (order review_key is_earlier (select (is_review_of 2) listed_tables.reviews)))
read_reviews_complete_example =
    read_reviews_complete 2 (some 1) listed_tables thomas_profile 0 4 shown refl apart (omega arith)
