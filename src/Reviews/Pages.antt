-- ===== src/Reviews/Pages.antt =====
-- The pages of the public list of reviews: `listForTutor` of reviews.service.ts.
use hktutor.Shared.{
  refl, none, some, ℕ, zero, suc, inl, inr, List, Option, ◌≡◌, map, ◌≢◌, arith, ap, sym, find-fits,
  ◌&&◌, ◌==◌, true, count_where, ◌∙◌, ◌<◌, Option-cases, select,
}
use hktutor.Database.Results.{ok, throw}
use hktutor.Database.Schema.{Store, Uuid, Review, TutorProfile}
use hktutor.Reviews.Lists.{
  decode_reviews_cursor, encode_reviews_cursor, read_cursor, ReviewItem, append_items,
  encode_cursor, list_for_tutor, read_reviews, review_item, review_key, to_reviews_page,
  after_reviews, ReviewsCursor,
}
use hktutor.Paging.Keys.{Key, is_earlier, is_earlier-IsKeyOrder}
use hktutor.Bookings.Selection.{find_public_tutor, is_public_tutor}
use hktutor.Database.Exceptions.{invalid_review_cursor}
use hktutor.Paging.Pages.{read_all, append_rest, read_page, Page, after_page, order}
use hktutor.Reviews.Ratings.{is_review_of}
use hktutor.Bookings.Amounts.{or_default}
use hktutor.Database.Enums.{is_verified}
use mathlib.Core.List as M
use hktutor.Paging.Order.{IsDistinct, length-select}
use hktutor.Paging.Complete.{read_all_complete}

abbrev map_items : Store → Option (List Review) → Option (List ReviewItem)
map_items s none = none
map_items s (some rs) = some (map (review_item s) rs)

map_items-append :
    (s : Store) (page : List Review) (rest : Option (List Review))
    → append_items (map (review_item s) page) (map_items s rest)
      ≡ map_items s (append_rest review_key is_earlier page rest)
map_items-append s page none = refl
map_items-append s page (some rs) = ap some (sym (M.map-append (review_item s) page rs))

-- A cursor that is read back is the one that was written for this tutor, and for another tutor it
-- is refused.
pub decode_reviews_cursor-encode :
    (tutor other : Uuid) (k : Key)
    → (decode_reviews_cursor tutor (encode_reviews_cursor tutor k) ≡ ok k)
      × (other ≢ tutor
          → decode_reviews_cursor other (encode_reviews_cursor tutor k)
            ≡ throw invalid_review_cursor)
unfolding decode_reviews_cursor
decode_reviews_cursor-encode tutor other k = (ground arith, λ apart. ground arith)

read_cursor-encode :
    (tutor : Uuid) (cursor : Option Key)
    → read_cursor tutor (encode_cursor tutor cursor) ≡ ok cursor
read_cursor-encode tutor none = refl
read_cursor-encode tutor (some k) = rw (decode_reviews_cursor-encode tutor tutor k).0 refl

followed :
    (tutor : Uuid) (s : Store) (page : Page Review)
    (follow : ReviewsCursor → Option (List ReviewItem)) (read : Key → Option (List Review))
    → ((k : Key) → follow (encode_reviews_cursor tutor k) ≡ map_items s (read k))
    → after_reviews (ok (to_reviews_page tutor s page)) follow
      ≡ map_items s (after_page review_key is_earlier page read)
followed tutor s page follow read same = elim (Option-cases page.next_cursor) [
  | inl end ↦ ground arith
  | inr (k, more) ↦
      let step = same k in let joined = map_items-append s page.items (read k) in ground arith
]

module _ (tutor : Uuid) (limit : Option ℕ) (s : Store) (p : TutorProfile)
    (public : find_public_tutor tutor s ≡ some p) where
  listed :
      (cursor : Option Key)
      → list_for_tutor tutor (encode_cursor tutor cursor) limit s
        ≡ ok (
            to_reviews_page tutor s (
              read_page review_key is_earlier
                (is_review_of tutor)
                (or_default limit 20)
                cursor
                s.reviews))
  unfolding list_for_tutor find_public_tutor is_public_tutor
  listed cursor =
      let fits =
        find-fits (λ q. is_public_tutor s q && q.user_id == tutor) s.tutor_profiles public in
      let verified : is_verified p.verification_status ≡ true = ground arith in
      let key = read_cursor-encode tutor cursor in ground arith

  mapped :
      (fuel : ℕ) (cursor : Option Key)
      → read_reviews fuel tutor (encode_cursor tutor cursor) limit s
        ≡ map_items s (
            read_all review_key is_earlier fuel
              (is_review_of tutor)
              (or_default limit 20)
              cursor
              s.reviews)
  unfolding read_reviews read_all
  mapped zero cursor = refl
  mapped (suc fuel) cursor =
      ap (λ r. after_reviews r (λ c. read_reviews fuel tutor (some c) limit s)) (listed cursor)
      ∙ followed tutor s
          (read_page review_key is_earlier (is_review_of tutor) (or_default limit 20) cursor
            s.reviews)
          (λ c. read_reviews fuel tutor (some c) limit s)
          (λ k.
            read_all review_key is_earlier fuel (is_review_of tutor) (or_default limit 20) (some k)
              s.reviews)
          (λ k. mapped fuel (some k))

-- A client that follows the cursors of the public list, of a tutor who is shown and with a page
-- size of at least one, comes to an end after at most as many pages as the tutor has reviews, and
-- one more, and has then read all reviews of the tutor, each one once, from the latest to the
-- earliest, while the tables do not change and no two reviews have one key of a time and an id.
pub read_reviews_complete :
    (tutor : Uuid) (limit : Option ℕ) (s : Store) (p : TutorProfile) (l fuel : ℕ)
    → find_public_tutor tutor s ≡ some p
    → or_default limit 20 ≡ suc l
    → IsDistinct review_key is_earlier s.reviews
    → count_where (is_review_of tutor) s.reviews < fuel
    → read_reviews fuel tutor none limit s
      ≡ some (
          map (review_item s) (order review_key is_earlier (select (is_review_of tutor) s.reviews)))
read_reviews_complete tutor limit s p l fuel public size distinct enough =
    mapped tutor limit s p public fuel none
    ∙ ap
        (λ n.
          map_items s (read_all review_key is_earlier fuel (is_review_of tutor) n none s.reviews))
        size
    ∙ ap (map_items s) (
        read_all_complete review_key is_earlier is_earlier-IsKeyOrder (is_review_of tutor) l
          s.reviews distinct fuel (rw (length-select (is_review_of tutor) s.reviews) enough))
