-- ===== src/Availability/Listing.antt =====
-- The slots that `getAvailabilityPublic` lists, and their order.
use hktutor.Shared.{
  none, some, count_where-le, refl, inl, inr, [], ◌∷◌, List, All, Bool, Bool-cases, count_where,
  ◌≡◌, arith, false, true, ◌&&◌, ◌∙◌, select, leb, ◌≢◌, ◌≤◌, Option-cases, any, ap, ◌<◌, ltb, sym,
  ==_self, subst, ◌==◌, ==→eq,
}
use hktutor.Database.Schema.{AvailabilitySlot, Uuid, Time, Store, Booking}
use hktutor.Availability.Ranges.{
  get_availability_public, insert_sorted, order_slots, is_before, RangeQuery, is_bookable, later_of,
  met,
}
use hktutor.Database.Enums.{BookingStatus, holds_slot}
use hktutor.Paging.Order.{All-weaken}
use hktutor.Paging.Complete.{All-selected}
use hktutor.Database.Results.{ok}
use hktutor.Database.Queries.{reserves}

-- Each slot stands before those that follow it.
abbrev pub IsOrdered : List AvailabilitySlot → Type 0
IsOrdered [] = Unit
IsOrdered (a ∷ rest) = All (λ b. is_before a b ≡ true) rest × IsOrdered rest

is_before_trans :
    (a b c : AvailabilitySlot) → is_before a b ≡ true → is_before b c ≡ true → is_before a c ≡ true
is_before_trans a b c p q = ground arith

is_before-total : (a b : AvailabilitySlot) → is_before a b ≡ false → is_before b a ≡ true
is_before-total a b p = ground arith

insert_sorted-All :
    (P : AvailabilitySlot → Type 0) (a : AvailabilitySlot) (xs : List AvailabilitySlot)
    → P a
    → All P xs
    → All P (insert_sorted a xs)
unfolding insert_sorted
insert_sorted-All P a [] p h = (p, tt)
insert_sorted-All P a (b ∷ rest) p h = elim (Bool-cases (is_before a b)) [
  | inl ahead ↦ rw ahead (p, h)
  | inr behind ↦ rw behind (h.0, insert_sorted-All P a rest p h.1)
]

insert_sorted-IsOrdered :
    (a : AvailabilitySlot) (xs : List AvailabilitySlot)
    → IsOrdered xs
    → IsOrdered (insert_sorted a xs)
unfolding insert_sorted
insert_sorted-IsOrdered a [] h = (tt, tt)
insert_sorted-IsOrdered a (b ∷ rest) h = elim (Bool-cases (is_before a b)) [
  | inl ahead ↦ rw ahead (
    (
      ahead,
      All-weaken (λ c. is_before b c ≡ true) (λ c. is_before a c ≡ true) rest
          (λ c later. is_before_trans a b c ahead later) h.0,
    ),
    h,
  )
  | inr behind ↦ rw behind (
    insert_sorted-All (λ c. is_before b c ≡ true) a rest (is_before-total a b behind) h.0,
    insert_sorted-IsOrdered a rest h.1,
  )
]

order_slots-IsOrdered : (xs : List AvailabilitySlot) → IsOrdered (order_slots xs)
unfolding order_slots
order_slots-IsOrdered [] = tt
order_slots-IsOrdered (a ∷ rest) =
    insert_sorted-IsOrdered a (order_slots rest) (order_slots-IsOrdered rest)

count_where-insert_sorted :
    (p : AvailabilitySlot → Bool) (a : AvailabilitySlot) (xs : List AvailabilitySlot)
    → count_where p (insert_sorted a xs) ≡ count_where p (a ∷ xs)
unfolding insert_sorted
count_where-insert_sorted p a [] = refl
count_where-insert_sorted p a (b ∷ rest) = elim (Bool-cases (is_before a b)) [
  | inl ahead ↦ rw ahead refl
  | inr behind ↦ rw behind (omega (arith, count_where-insert_sorted p a rest))
]

count_where-order_slots :
    (p : AvailabilitySlot → Bool) (xs : List AvailabilitySlot)
    → count_where p (order_slots xs) ≡ count_where p xs
unfolding order_slots
count_where-order_slots p [] = refl
count_where-order_slots p (a ∷ rest) =
    omega (arith, count_where-insert_sorted p a (order_slots rest), count_where-order_slots p rest)

count_where-select :
    (p q : AvailabilitySlot → Bool) (xs : List AvailabilitySlot)
    → count_where p (select q xs) ≡ count_where (λ a. q a && p a) xs
count_where-select p q [] = refl
count_where-select p q (a ∷ rest) = ground (arith, count_where-select p q rest)

-- A slot that the public may book: it is the tutor's and not deleted, it begins neither in the past
-- nor ahead of the range, and ahead of the range's end; and no booking that is pending or confirmed
-- holds it.
pub record IsFree (tutor : Uuid) (q : RangeQuery) (now : Time) (s : Store) (a : AvailabilitySlot)
    : Type 0 where
  pub own : a.tutor_profile_id ≡ tutor
  pub live : a.deleted_at ≡ none
  pub upcoming : now ≤ a.start_at
  pub from : (t : Time) → q.from ≡ some t → t ≤ a.start_at
  pub to : (t : Time) → q.to ≡ some t → a.start_at < t
  pub unheld :
      All
        (λ b.
          b.slot_id ≡ a.id
          → (b.status ≢ BookingStatus.pending) × (b.status ≢ BookingStatus.confirmed))
        s.bookings

not_held :
    (st : BookingStatus)
    → holds_slot st ≡ false
    → (st ≢ BookingStatus.pending) × (st ≢ BookingStatus.confirmed)
not_held st h = (λ e. ground (arith, h, ap holds_slot e), λ e. ground (arith, h, ap holds_slot e))

not_holding :
    (st : BookingStatus)
    → (st ≢ BookingStatus.pending) × (st ≢ BookingStatus.confirmed)
    → holds_slot st ≡ false
not_holding BookingStatus.pending h = absurd (h.0 refl)
not_holding BookingStatus.confirmed h = absurd (h.1 refl)
not_holding BookingStatus.completed h = refl
not_holding BookingStatus.canceled h = refl
not_holding BookingStatus.expired h = refl

unheld-any :
    (slot : Uuid) (bs : List Booking)
    → any (reserves slot) bs ≡ false
    → All
        (λ b.
          b.slot_id ≡ slot
          → (b.status ≢ BookingStatus.pending) × (b.status ≢ BookingStatus.confirmed))
        bs
unheld-any slot [] h = tt
unheld-any slot (b ∷ bs) h =
    (λ e. not_held b.status (ground (arith, ==_self slot)), unheld-any slot bs (ground arith))

any-unheld :
    (slot : Uuid) (bs : List Booking)
    → All
        (λ b.
          b.slot_id ≡ slot
          → (b.status ≢ BookingStatus.pending) × (b.status ≢ BookingStatus.confirmed))
        bs
    → any (reserves slot) bs ≡ false
any-unheld slot [] h = refl
any-unheld slot (b ∷ bs) h = elim (Bool-cases (b.slot_id == slot)) [
  | inr other ↦ ground (arith, any-unheld slot bs h.1)
  | inl held ↦
      let status = not_holding b.status (h.0 (==→eq b.slot_id slot held)) in
      ground (arith, any-unheld slot bs h.1)
]

pub is_bookable-IsFree :
    (tutor : Uuid) (q : RangeQuery) (now : Time) (s : Store) (a : AvailabilitySlot)
    → is_bookable tutor q now s a ≡ true
    → IsFree tutor q now s a
is_bookable-IsFree tutor q now s a h = record {
  own = ground arith;
  live = ground arith;
  upcoming = ground arith;
  from = λ t e. ground arith;
  to = λ t e. ground arith;
  unheld = unheld-any a.id s.bookings (ground arith);
}

IsFree-is_bookable :
    (tutor : Uuid) (q : RangeQuery) (now : Time) (s : Store) (a : AvailabilitySlot)
    → IsFree tutor q now s a
    → is_bookable tutor q now s a ≡ true
IsFree-is_bookable tutor q now s a free =
    let unheld = any-unheld a.id s.bookings free.unheld in
    let own = free.own in
    let live = free.live in
    let upcoming = free.upcoming in
    let start : leb (later_of q.from now) a.start_at ≡ true = elim (Option-cases q.from) [
      | inl open_end ↦ ground arith
      | inr (t, bound) ↦ ground (arith, free.from t bound)
    ] in
    let end : met (λ t. ltb a.start_at t) q.to ≡ true = elim (Option-cases q.to) [
      | inl open_end ↦ ground arith
      | inr (t, bound) ↦ ground (arith, free.to t bound)
    ] in
    ground (arith, ==_self tutor)

order_slots-All :
    (P : AvailabilitySlot → Type 0) (xs : List AvailabilitySlot) → All P xs → All P (order_slots xs)
unfolding order_slots
order_slots-All P [] h = tt
order_slots-All P (a ∷ rest) h =
    insert_sorted-All P a (order_slots rest) h.0 (order_slots-All P rest h.1)

selected-IsFree :
    (tutor : Uuid) (q : RangeQuery) (now : Time) (s : Store) (xs : List AvailabilitySlot)
    → All (IsFree tutor q now s) (select (is_bookable tutor q now s) xs)
selected-IsFree tutor q now s xs =
    All-weaken (λ a. is_bookable tutor q now s a ≡ true) (IsFree tutor q now s)
      (select (is_bookable tutor q now s) xs) (is_bookable-IsFree tutor q now s)
      (All-selected (is_bookable tutor q now s) xs)

count_free :
    (tutor : Uuid) (q : RangeQuery) (now : Time) (s : Store) (p : AvailabilitySlot → Bool)
    (xs : List AvailabilitySlot)
    → ((a : AvailabilitySlot) → p a ≡ true → IsFree tutor q now s a)
    → count_where (λ a. is_bookable tutor q now s a && p a) xs ≡ count_where p xs
count_free tutor q now s p [] all = refl
count_free tutor q now s p (a ∷ rest) all =
    let ih = count_free tutor q now s p rest all in
    elim (Bool-cases (p a)) [
      | inl fits ↦ let free = IsFree-is_bookable tutor q now s a (all a fits) in ground arith
      | inr other ↦ ground arith
    ]

-- The public list of a tutor's slots is ordered by start and end, and holds the free slots alone and
-- all of them: every listed slot is the tutor's, not deleted, within the range, has not begun and is
-- held by no pending or confirmed booking; free slots of any kind are as many in the list as in the
-- table; and no slot is listed more often than it is stored.
pub get_availability_public-lists :
    (tutor : Uuid) (q : RangeQuery) (now : Time) (s : Store) {slots : List AvailabilitySlot}
    (p : AvailabilitySlot → Bool)
    → get_availability_public tutor q now s ≡ ok slots
    → ((a : AvailabilitySlot) → p a ≡ true → IsFree tutor q now s a)
    → IsOrdered slots
      × All (IsFree tutor q now s) slots
      × (count_where p slots ≡ count_where p s.slots)
      × ((i : Uuid) → count_where (λ a. a.id == i) slots ≤ count_where (λ a. a.id == i) s.slots)
unfolding get_availability_public
get_availability_public-lists tutor q now s {slots} p h all =
    let bookable = is_bookable tutor q now s in
    let rows = select bookable s.slots in
    let listed : order_slots rows ≡ slots = ground arith in
    let counted = λ (v : AvailabilitySlot → Bool).
      ap (count_where v) (sym listed)
      ∙ count_where-order_slots v rows
      ∙ count_where-select v bookable s.slots in
    (
      subst IsOrdered listed (order_slots-IsOrdered rows),
      subst (All (IsFree tutor q now s)) listed
          (order_slots-All (IsFree tutor q now s) rows (selected-IsFree tutor q now s s.slots)),
      counted p ∙ count_free tutor q now s p s.slots all,
      λ i. omega (
        arith,
        counted (λ a. a.id == i),
        count_where-le (λ a. bookable a && a.id == i) (λ a. a.id == i) s.slots
            (λ a k. ground arith),
      ),
    )
