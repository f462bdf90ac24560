-- ===== src/Reviews/Cache.antt =====
-- The rating that a profile caches: review-ratings.ts.
use hktutor.Shared.{
  refl, [], ◌∷◌, inl, inr, List, Option, ◌≡◌, false, ◌++◌, All, if◌then◌else◌, ◌==◌, Bool-cases,
  ==→eq, arith, All-update_where_to, ◌∙◌, sym, ap,
}
use hktutor.Database.Results.{Result-cases}
use hktutor.Reviews.Ratings.{
  read_tutor_review_totals, with_totals, is_review_of, tutor_review_display_average,
}
use hktutor.Database.Schema.{Uuid, Review, Time, Store, TutorProfile}
use hktutor.Reviews.Create.{ReviewInput, create_review, review_of}
use hktutor.Database.Values.{Value}
use hktutor.Reviews.Sums.{sum_other, latest_other, count_other}
use hktutor.Reviews.Effects.{create_review-ok, create_review-throw}

-- A profile shows what the reviews of its tutor add up to.
pub record IsCached (reviews : List Review) (p : TutorProfile) : Type 0 where
  pub average :
      p.rating_average ≡ tutor_review_display_average (read_tutor_review_totals p.user_id reviews)
  pub count : p.review_count ≡ (read_tutor_review_totals p.user_id reviews).review_count
  pub updated : p.rating_updated_at ≡ (read_tutor_review_totals p.user_id reviews).latest_review_at

-- The totals of a tutor do not see the review of another.
totals_other :
    (tutor : Uuid) (r : Review) (reviews : List Review)
    → is_review_of tutor r ≡ false
    → read_tutor_review_totals tutor (reviews ++ r ∷ []) ≡ read_tutor_review_totals tutor reviews
unfolding read_tutor_review_totals
totals_other tutor r reviews other =
    let w = is_review_of tutor in
    rw
      (
        sum_other w (λ q. q.clarity) r reviews other,
        sum_other w (λ q. q.punctuality) r reviews other,
        sum_other w (λ q. q.preparation) r reviews other,
        latest_other w r reviews other,
        count_other w r reviews other,
      )
      refl

with_totals-IsCached :
    (reviews : List Review) (p : TutorProfile)
    → IsCached reviews (with_totals (read_tutor_review_totals p.user_id reviews) p)
unfolding with_totals
with_totals-IsCached reviews p = record { average = refl; count = refl; updated = refl }

refreshed :
    (tutor : Uuid) (r : Review) (reviews : List Review) (p : TutorProfile)
    → r.tutor_profile_id ≡ tutor
    → IsCached reviews p
    → IsCached (reviews ++ r ∷ []) (
        if p.user_id == tutor
        then with_totals (read_tutor_review_totals tutor (reviews ++ r ∷ [])) p
        else p)
refreshed tutor r reviews p of h = elim (Bool-cases (p.user_id == tutor)) [
  | inl own ↦ rw (own, ← ==→eq p.user_id tutor own) (with_totals-IsCached (reviews ++ r ∷ []) p)
  | inr other ↦
      let same = totals_other p.user_id r reviews (ground arith) in
      rw other (record {
        average = h.average ∙ sym (ap tutor_review_display_average same);
        count = h.count ∙ sym (ap (λ q. q.review_count) same);
        updated = h.updated ∙ sym (ap (λ q. q.latest_review_at) same);
      })
]

-- The rating, the number of reviews and the time of the last one that each profile shows agree with
-- the reviews that are stored, and they do so behind every `create`, whatever it returns.
pub create_review-IsCached :
    (input : ReviewInput) (id : Uuid) (now : Time) (seen s : Store) (refusal : Option Value)
    → All (IsCached s.reviews) s.tutor_profiles
    → let t = (create_review input id now seen refusal s).1 in
      All (IsCached t.reviews) t.tutor_profiles
create_review-IsCached input id now seen s refusal h =
    elim (Result-cases (create_review input id now seen refusal s).0) [
      | inl (r, accepted) ↦
          let effect =
            create_review-ok input id now seen refusal s
              (create_review input id now seen refusal s).1 r (ground arith) in
          let b = effect.booking in
          rw effect.left (
            All-update_where_to (IsCached s.reviews)
              (IsCached (s.reviews ++ review_of input b id now ∷ []))
              (λ p. p.user_id == b.tutor_profile_id)
              (with_totals (
                read_tutor_review_totals b.tutor_profile_id
                  (s.reviews ++ review_of input b id now ∷ [])))
              s.tutor_profiles
              (λ p. refreshed b.tutor_profile_id (review_of input b id now) s.reviews p refl) h)
      | inr (e, failed) ↦
          rw
            (create_review-throw input id now seen refusal s
              (create_review input id now seen refusal s).1 e (ground arith))
            h
    ]
