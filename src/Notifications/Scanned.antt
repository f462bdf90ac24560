-- ===== src/Notifications/Scanned.antt =====
-- The rows that the scan of reminder-job.service.ts reads: what their order keeps, and the bookings
-- that their ids lead to.
use hktutor.Shared.{
  All, ==_self, ==→eq, ◌==◌, find, ◌++◌, refl, [], ◌∷◌, some, inl, inr, List, ◌≡◌, ap, arith,
  Bool-cases, Option-cases, ◌∙◌, count_where, false, ◌≤◌,
}
use hktutor.Paging.Pages.{insert_ordered, order}
use hktutor.Database.Schema.{Uuid, Store, Booking}
use hktutor.Notifications.Run.{reminder_rows, row_key}
use hktutor.Notifications.Reminders.{to_reminder_booking, reminder_of, ReminderBooking}
use hktutor.Database.Queries.{find_slot, find_user, with_slot, find_booking, find_booking_with_slot}
use hktutor.Paging.Keys.{is_later}

pub All-join :
    {A : Type 0} (P : A → Type 0) (xs ys : List A) → All P xs → All P ys → All P (xs ++ ys)
All-join P [] ys p q = q
All-join P (x ∷ xs) ys p q = (p.0, All-join P xs ys p.1 q)

-- What holds of all ordered rows holds of all rows.
insert_ordered-All_back :
    (P : ReminderBooking → Type 0) (b : ReminderBooking) (bs : List ReminderBooking)
    → All P (insert_ordered row_key is_later b bs)
    → P b × All P bs
unfolding insert_ordered
insert_ordered-All_back P b [] h = h
insert_ordered-All_back P b (c ∷ rest) h = elim (Bool-cases (is_later (row_key c) (row_key b))) [
  | inl after ↦
      let kept : All P (c ∷ insert_ordered row_key is_later b rest) = rw after at h in
      let (first, others) = insert_ordered-All_back P b rest kept.1 in (first, (kept.0, others))
  | inr before ↦ rw before at h
]

pub order-All_back :
    (P : ReminderBooking → Type 0) (bs : List ReminderBooking)
    → All P (order row_key is_later bs)
    → All P bs
unfolding order
order-All_back P [] h = tt
order-All_back P (b ∷ bs) h =
    let (first, others) = insert_ordered-All_back P b (order row_key is_later bs) h in
    (first, order-All_back P bs others)

All-behind :
    (b : Booking) (bs xs : List Booking)
    → count_where (λ x. x.id == b.id) xs ≡ 0
    → All (λ c. find (λ x. x.id == c.id) bs ≡ some c) xs
    → All (λ c. find (λ x. x.id == c.id) (b ∷ bs) ≡ some c) xs
All-behind b bs [] none_left h = tt
All-behind b bs (c ∷ xs) none_left h =
    let apart : (b.id == c.id) ≡ false = ground (arith, ==→eq b.id c.id, ==_self b.id) in
    (rw apart h.0, All-behind b bs xs (ground arith) h.1)

All-found :
    (bs : List Booking)
    → ((i : Uuid) → count_where (λ b. b.id == i) bs ≤ 1)
    → All (λ b. find (λ x. x.id == b.id) bs ≡ some b) bs
All-found [] unique = tt
All-found (b ∷ bs) unique =
    let none_left : count_where (λ x. x.id == b.id) bs ≡ 0 =
      ground (arith, unique b.id, ==_self b.id) in
    (
      rw (==_self b.id) refl,
      All-behind b bs bs none_left (All-found bs (λ i. ground (arith, unique i))),
    )

row_id :
    (s : Store) (c : Booking) {b : ReminderBooking}
    → reminder_of s (with_slot s (some c)) ≡ some b
    → b.id ≡ c.id
unfolding reminder_of to_reminder_booking
row_id s c {b} h = elim (Option-cases (find_slot c.slot_id s)) [
  | inl missing ↦ absurd (ground arith)
  | inr (slot, there) ↦ elim (Option-cases (find_user c.student_user_id s)) [
    | inl missing ↦ absurd (ground arith)
    | inr (student, known) ↦ elim (Option-cases (find_user c.tutor_profile_id s)) [
      | inl missing ↦ absurd (ground arith)
      | inr (tutor, known_too) ↦ ground arith
    ]
  ]
]

-- A row of the scan is the one that its booking's id leads to.
rows_of :
    (s : Store) (bs : List Booking)
    → All (λ b. find_booking b.id s ≡ some b) bs
    → All (λ b. reminder_of s (find_booking_with_slot b.id s) ≡ some b) (reminder_rows s bs)
unfolding reminder_rows
rows_of s [] h = tt
rows_of s (c ∷ bs) h = elim (Option-cases (reminder_of s (with_slot s (some c)))) [
  | inl dropped ↦ rw dropped (rows_of s bs h.1)
  | inr (b, kept) ↦
      let found : find_booking b.id s ≡ some c =
        ap (λ i. find_booking i s) (row_id s c kept) ∙ h.0 in
      rw kept (ap (λ o. reminder_of s (with_slot s o)) found ∙ kept, rows_of s bs h.1)
]

pub rows-found :
    (s : Store)
    → ((i : Uuid) → count_where (λ b. b.id == i) s.bookings ≤ 1)
    → All (λ b. reminder_of s (find_booking_with_slot b.id s) ≡ some b) (reminder_rows s s.bookings)
rows-found s unique = rows_of s s.bookings (All-found s.bookings unique)
