-- ===== src/Reviews/Sums.antt =====
-- The sums, the counts and the latest time of a column of the reviews: review-ratings.ts.
use hktutor.Shared.{
  refl, [], ◌∷◌, ℕ, Bool, List, All, ◌≡◌, false, ◌≤◌, count_where, ◌*◌, ◌++◌, arith,
  count_where-append,
}
use hktutor.Database.Schema.{Review}
use hktutor.Reviews.Ratings.{latest_where, sum_where}

-- A review that does not meet the condition does not count.
module _ (w : Review → Bool) where
  pub sum_other :
      (column : Review → ℕ) (r : Review) (rs : List Review)
      → w r ≡ false
      → sum_where w column (rs ++ r ∷ []) ≡ sum_where w column rs
  unfolding sum_where
  sum_other column r [] other = rw other refl
  sum_other column r (q ∷ rs) other = rw (sum_other column r rs other) refl

  pub latest_other :
      (r : Review) (rs : List Review)
      → w r ≡ false
      → latest_where w (rs ++ r ∷ []) ≡ latest_where w rs
  unfolding latest_where
  latest_other r [] other = rw other refl
  latest_other r (q ∷ rs) other = rw (latest_other r rs other) refl

  pub count_other :
      (r : Review) (rs : List Review)
      → w r ≡ false
      → count_where w (rs ++ r ∷ []) ≡ count_where w rs
  count_other r rs other = ground (arith, count_where-append w rs (r ∷ []))

  -- A column of values from 1 to 5.
  pub sum-bounds :
      (column : Review → ℕ) (rs : List Review)
      → All (λ r. (1 ≤ column r) × (column r ≤ 5)) rs
      → (count_where w rs ≤ sum_where w column rs) × (sum_where w column rs ≤ 5 * count_where w rs)
  unfolding sum_where
  sum-bounds column [] h = (omega arith, omega arith)
  sum-bounds column (r ∷ rs) h =
      let ((low, high), rest) = h in
      let (below, above) = sum-bounds column rs rest in (ground arith, ground arith)
