-- ===== src/Reviews/Lists.antt =====
-- reviews.service.ts: `listForTutor`, and the cursor of reviews.cursor.ts, as its JSON is read.
use hktutor.Shared.{
  [], ◌∷◌, none, some, ℕ, zero, suc, List, Text, trim, Option, ◌++◌, map, not, ◌!=◌,
}
use hktutor.Database.Results.{Result, ok, throw, ◌>>=◌, ◌>>◌, or_throw, throw_if}
use hktutor.Database.Exceptions.{tutor_not_found, invalid_review_cursor}
use hktutor.Database.Schema.{Review, Time, Uuid, Store, StudentProfile}
use hktutor.Reviews.Ratings.{overall_rating_of, is_review_of}
use hktutor.Bookings.Selection.{find_public_tutor}
use hktutor.Paging.Keys.{Key, is_earlier}
use hktutor.Paging.Pages.{read_page, Page}
use hktutor.Database.Queries.{find_student_profile}
use hktutor.Database.Enums.{is_verified}
use hktutor.Bookings.Amounts.{or_default}

-- `TutorReviewsCursor` with the `tutorId` that is encoded with it.
pub record ReviewsCursor : Type 0 where
  pub created_at : Time
  pub id : Uuid
  pub tutor_id : Uuid

abbrev pub review_key : Review → Key
review_key r = record { time = r.created_at; id = r.id }

-- `encodeTutorReviewsCursor`, without the base64url of its JSON.
abbrev pub encode_reviews_cursor : Uuid → Key → ReviewsCursor
encode_reviews_cursor tutor k = record { created_at = k.time; id = k.id; tutor_id = tutor }

abbrev pub encode_cursor : Uuid → Option Key → Option ReviewsCursor
encode_cursor tutor none = none
encode_cursor tutor (some k) = some (encode_reviews_cursor tutor k)

-- `decodeTutorReviewsCursor`: `value.tutorId !== tutorId`.
unfoldable pub decode_reviews_cursor : Uuid → ReviewsCursor → Result Key
decode_reviews_cursor tutor c = do
  throw_if (c.tutor_id != tutor) invalid_review_cursor
  ok (record { time = c.created_at; id = c.id })

-- `query.cursor === undefined ? undefined : decodeTutorReviewsCursor(query.cursor, tutorId)`
abbrev pub read_cursor : Uuid → Option ReviewsCursor → Result (Option Key)
read_cursor tutor none = ok none
read_cursor tutor (some c) = decode_reviews_cursor tutor c >>= λ k. ok (some k)

pub record ReviewItem : Type 0 where
  pub display_name : Text
  pub clarity : ℕ
  pub created_at : Time
  pub feedback : Text
  pub id : Uuid
  pub overall_rating : ℕ
  pub preparation : ℕ
  pub punctuality : ℕ

pub record ReviewsPage : Type 0 where
  pub items : List ReviewItem
  pub next_cursor : Option ReviewsCursor

-- 'A student'
abbrev pub a_student : Text
a_student = b'A' ∷ b' ' ∷ b's' ∷ b't' ∷ b'u' ∷ b'd' ∷ b'e' ∷ b'n' ∷ b't' ∷ []

abbrev pub or_a_student : Text → Text
or_a_student [] = a_student
or_a_student (c ∷ cs) = c ∷ cs

-- `review.author.studentProfile?.nickname.trim() || 'A student'`
unfoldable pub display_name_of : Option StudentProfile → Text
unfolding trim
display_name_of none = a_student
display_name_of (some p) = or_a_student (trim p.nickname)

unfoldable pub review_item : Store → Review → ReviewItem
unfolding display_name_of overall_rating_of
review_item s r = record {
  display_name = display_name_of (find_student_profile r.author_student_user_id s);
  clarity = r.clarity;
  created_at = r.created_at;
  feedback = r.feedback;
  id = r.id;
  overall_rating = overall_rating_of r;
  preparation = r.preparation;
  punctuality = r.punctuality;
}

abbrev pub to_reviews_page : Uuid → Store → Page Review → ReviewsPage
to_reviews_page tutor s page = record {
  items = map (review_item s) page.items;
  next_cursor = encode_cursor tutor page.next_cursor;
}

-- `listForTutor`
unfoldable pub list_for_tutor : Uuid → Option ReviewsCursor → Option ℕ → Store → Result ReviewsPage
unfolding find_public_tutor decode_reviews_cursor review_item read_page
list_for_tutor tutor cursor limit s = do
  profile ← or_throw (find_public_tutor tutor s) tutor_not_found
  throw_if (not (is_verified profile.verification_status)) tutor_not_found
  key ← read_cursor tutor cursor
  ok (
      to_reviews_page tutor s
        (read_page review_key is_earlier (is_review_of tutor) (or_default limit 20) key s.reviews))

abbrev pub append_items : List ReviewItem → Option (List ReviewItem) → Option (List ReviewItem)
append_items items none = none
append_items items (some rest) = some (items ++ rest)

abbrev pub after_reviews :
    Result ReviewsPage → (ReviewsCursor → Option (List ReviewItem)) → Option (List ReviewItem)
after_reviews (throw e) follow = none
after_reviews (ok page) follow = elim page.next_cursor [
  | none ↦ some page.items
  | some c ↦ append_items page.items (follow c)
]

-- A client that reads the pages one after the other: `none` where the fuel runs out or a page is
-- refused.
unfoldable pub read_reviews :
    ℕ → Uuid → Option ReviewsCursor → Option ℕ → Store → Option (List ReviewItem)
unfolding list_for_tutor
read_reviews zero tutor cursor limit s = none
read_reviews (suc fuel) tutor cursor limit s =
    after_reviews (list_for_tutor tutor cursor limit s)
      (λ c. read_reviews fuel tutor (some c) limit s)
