-- ===== src/Reviews/Averages.antt =====
-- The average that is shown: `tutorReviewDisplayAverage` of review-ratings.ts.
use native.Mathlib.Nat.{le-div_iff_mul-le, div-lt_iff_lt-mul}
use hktutor.Shared.{
  refl, none, some, ℕ, inl, inr, ◌*◌, ◌<◌, ◌≤◌, arith, ◌+◌, List, ◌/◌, All, ◌≡◌, ◌⊎◌, count_where,
  Bool-cases, ◌==◌,
}
use hktutor.Database.Schema.{Review, Uuid}
use hktutor.Bookings.Amounts.{round_half_up}
use hktutor.Reviews.Ratings.{tutor_review_display_average, read_tutor_review_totals, is_review_of}
use hktutor.Reviews.Sums.{sum-bounds}
use hktutor.Paging.Order.{All-weaken}

-- The DTO admits ratings from 1 to 5.
pub record IsRated (r : Review) : Type 0 where
  pub clarity : (1 ≤ r.clarity) × (r.clarity ≤ 5)
  pub punctuality : (1 ≤ r.punctuality) × (r.punctuality ≤ 5)
  pub preparation : (1 ≤ r.preparation) × (r.preparation ≤ 5)

abbrev pub IsHalfUnit : ℕ → ℕ → ℕ → Type 0
IsHalfUnit q a b = (q * (2 * b) ≤ 2 * a + b) × (2 * a + b < (q + 1) * (2 * b))

pub round_half_up_lem : (a b : ℕ) → 0 < b → IsHalfUnit (round_half_up a b) a b
unfolding round_half_up
round_half_up_lem a b pos =
    let pos' : 0 < 2 * b = omega arith in
    let q = (2 * a + b) / (2 * b) in
    let below : q * (2 * b) ≤ 2 * a + b = (le-div_iff_mul-le pos').0 (omega arith) in
    let above : 2 * a + b < (q + 1) * (2 * b) = (div-lt_iff_lt-mul pos').0 (omega arith) in
    (below, above)

-- An average in hundredths, of as many triples of ratings.
round_half_up-bounds :
    (total n : ℕ)
    → 0 < n
    → 3 * n ≤ total
    → total ≤ 15 * n
    → (100 ≤ round_half_up (total * 100) (n * 3)) × (round_half_up (total * 100) (n * 3) ≤ 500)
unfolding round_half_up
round_half_up-bounds total n pos below above =
    let pos' : 0 < 2 * (n * 3) = omega arith in
    let q = (2 * (total * 100) + n * 3) / (2 * (n * 3)) in
    let low : 100 ≤ q = (le-div_iff_mul-le pos').1 (omega arith) in
    let high : q < 501 = (div-lt_iff_lt-mul pos').1 (omega arith) in (low, omega arith)

-- The average of reviews with ratings from 1 to 5: there is none without a review. Else it lies
-- from 1.00 to 5.00 and is the sum of the ratings over three times the number of reviews, up to
-- half a hundredth, where an exact half is rounded up.
pub tutor_review_display_average_lem :
    (tutor : Uuid) (reviews : List Review)
    → All IsRated reviews
    → let totals = read_tutor_review_totals tutor reviews in
      (totals.review_count ≡ 0) × (tutor_review_display_average totals ≡ none)
      ⊎ ((q : ℕ) × (tutor_review_display_average totals ≡ some q)
          × (100 ≤ q)
          × (q ≤ 500)
          × IsHalfUnit q (totals.dimension_total * 100) (totals.review_count * 3))
unfolding tutor_review_display_average read_tutor_review_totals
tutor_review_display_average_lem tutor reviews rated =
    let w = is_review_of tutor in
    let n = count_where w reviews in
    let c =
      sum-bounds w (λ r. r.clarity) reviews
        (All-weaken IsRated (λ r. (1 ≤ r.clarity) × (r.clarity ≤ 5)) reviews (λ r h. h.clarity)
          rated) in
    let p =
      sum-bounds w (λ r. r.punctuality) reviews
        (All-weaken IsRated (λ r. (1 ≤ r.punctuality) × (r.punctuality ≤ 5)) reviews
          (λ r h. h.punctuality) rated) in
    let d =
      sum-bounds w (λ r. r.preparation) reviews
        (All-weaken IsRated (λ r. (1 ≤ r.preparation) × (r.preparation ≤ 5)) reviews
          (λ r h. h.preparation) rated) in
    let totals = read_tutor_review_totals tutor reviews in
    let q = round_half_up (totals.dimension_total * 100) (totals.review_count * 3) in
    elim (Bool-cases (n == 0)) [
      | inl empty ↦ inl (ground arith, rw empty refl)
      | inr some_reviews ↦
          let pos : 0 < n = ground arith in
          let bounds =
            round_half_up-bounds totals.dimension_total n pos (omega arith) (omega arith) in
          inr (
            q,
            rw some_reviews refl,
            bounds.0,
            bounds.1,
            round_half_up_lem (totals.dimension_total * 100) (totals.review_count * 3)
                (omega arith),
          )
    ]
