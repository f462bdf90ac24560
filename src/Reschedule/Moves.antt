-- ===== src/Reschedule/Moves.antt =====
-- What an approval does to the request and the booking together: `approve` of
-- reschedule-requests.service.ts.
use hktutor.Shared.{
  Bool-cases, refl, none, some, inl, inr, ◌≡◌, true, Option-cases, arith, ◌<◌, ◌≢◌, false,
  find-fits, ◌==◌, ==_self, ap, sym, ◌∙◌, ==→eq, ◌⊎◌, All-find, count_where, find-update_where,
  count_where-update_where_once, any-eq_false, Option, find,
}
use hktutor.Database.Enums.{BookingStatus, approved, is_confirmed, is_request_open}
use hktutor.Database.Results.{ok, throw, Result-cases, Result}
use hktutor.Reschedule.Approve.{
  ApproveResponse, approve_request, is_open_request, is_movable, move_row, approve_row,
}
use hktutor.Database.Schema.{Uuid, RescheduleRequest, Time, Booking, Store, AvailabilitySlot}
use hktutor.Reschedule.Approve.Checks.{check_approval, check_target}
use hktutor.Reschedule.Access.{is_participant, read_locked_request}
use hktutor.Database.Queries.{
  find_request, find_slot, find_booking, is_slot_reserved, reservations, reserves,
}
use hktutor.System.Invariant.{IsConsistent, RequestIsValid}
use hktutor.Reschedule.Effects.{Approval}
use hktutor.Database.Values.{Value}
use hktutor.Database.Exceptions.{Exception}

-- The checks of an approval, in the words of the tables.
pub record IsApprovable (user request : Uuid) (now : Time) (s : Store) (r : RescheduleRequest)
    (b : Booking) (target : AvailabilitySlot) : Type 0 where
  pub found : find_request request s ≡ some r
  pub pending : is_request_open r.status ≡ true
  pub other : r.requested_by_id ≢ user
  pub participant : (b.student_user_id ≡ user) ⊎ (b.tutor_profile_id ≡ user)
  pub booked : find_booking r.booking_id s ≡ some b
  pub confirmed : b.status ≡ BookingStatus.confirmed
  pub in_place : b.slot_id ≡ r.from_slot_id
  pub there : find_slot r.requested_slot_id s ≡ some target
  pub live : target.deleted_at ≡ none
  pub same_tutor : target.tutor_profile_id ≡ b.tutor_profile_id
  pub upcoming : now < target.start_at
  pub free : is_slot_reserved r.requested_slot_id s ≡ false

is_confirmed-eq : (st : BookingStatus) → is_confirmed st ≡ true → st ≡ BookingStatus.confirmed
is_confirmed-eq BookingStatus.confirmed h = refl
is_confirmed-eq BookingStatus.pending h = cc
is_confirmed-eq BookingStatus.completed h = cc
is_confirmed-eq BookingStatus.canceled h = cc
is_confirmed-eq BookingStatus.expired h = cc

check_target-ok :
    (r : RescheduleRequest) (b : Booking) (slot target : AvailabilitySlot) (now : Time) (s : Store)
    → check_target r b slot now s ≡ ok target
    → (find_slot r.requested_slot_id s ≡ some target)
      × (target.deleted_at ≡ none)
      × (target.tutor_profile_id ≡ b.tutor_profile_id)
      × (now < target.start_at)
      × (is_slot_reserved target.id s ≡ false)
unfolding check_target
check_target-ok r b slot target now s h = elim (Option-cases (find_slot r.requested_slot_id s)) [
  | inl missing ↦ ground arith
  | inr (a, found) ↦ (ground arith, ground arith, ground arith, ground arith, ground arith)
]

is_participant-eq :
    (user : Uuid) (b : Booking)
    → is_participant user b ≡ true
    → (b.student_user_id ≡ user) ⊎ (b.tutor_profile_id ≡ user)
is_participant-eq user b h = elim (Bool-cases (b.student_user_id == user)) [
  | inl own ↦ inl (==→eq b.student_user_id user own)
  | inr other ↦ inr (ground arith)
]

check_approval-ok :
    (user request : Uuid) (now : Time) (s : Store) (r : RescheduleRequest) (b : Booking)
    (target : AvailabilitySlot)
    → check_approval user request now s ≡ ok (r, b, target)
    → IsApprovable user request now s r b target
unfolding check_approval read_locked_request
check_approval-ok user request now s r b target h = elim (Option-cases (find_request request s)) [
  | inl missing ↦ ground arith
  | inr (q, found) ↦ elim (Option-cases (find_booking q.booking_id s)) [
    | inl missing ↦ ground arith
    | inr (c, booked) ↦ elim (Option-cases (find_slot c.slot_id s)) [
      | inl missing ↦ ground arith
      | inr (slot, there) ↦ elim (Result-cases (check_target q c slot now s)) [
        | inr (e, failed) ↦ ground arith
        | inl (a, passed) ↦
            let (at, live, same_tutor, upcoming, free) = check_target-ok q c slot a now s passed in
            let same : q ≡ r = ground arith in
            let same' : c ≡ b = ground arith in
            let same'' : a ≡ target = ground arith in
            let id = find-fits (λ x. x.id == q.requested_slot_id) s.slots at in
            record {
              found = ground arith;
              pending = ground arith;
              other = λ e. ground (arith, ==_self user);
              participant = is_participant-eq user b (ground arith);
              booked = ground arith;
              confirmed = is_confirmed-eq b.status (ground arith);
              in_place = ground arith;
              there = ground arith;
              live = ground arith;
              same_tutor = ground arith;
              upcoming = ground arith;
              free =
                  ap (λ i. is_slot_reserved i s)
                    (ap (λ x. x.requested_slot_id) (sym same)
                      ∙ sym (==→eq a.id q.requested_slot_id id))
                  ∙ free;
            }
      ]
    ]
  ]
]

-- The approved request and the moved booking in the tables that an approval leaves.
pub record IsMoved (user request : Uuid) (decided_at : Time) (r : RescheduleRequest) (b : Booking)
    (t : Store) : Type 0 where
  pub decided :
      find_request request t
      ≡ some
          (record r { decided_at = some decided_at; reviewed_by_id = some user; status = approved })
  pub moved : find_booking r.booking_id t ≡ some (record b { slot_id = r.requested_slot_id })
  pub released : reservations r.from_slot_id t ≡ 0
  pub taken : reservations r.requested_slot_id t ≡ 1

Approval-IsMoved :
    (user request : Uuid) (now decided_at : Time) (s t : Store) (r : RescheduleRequest)
    (b : Booking) (target : AvailabilitySlot)
    → IsConsistent s
    → Approval user request now decided_at s t r b target
    → IsMoved user request decided_at r b t
Approval-IsMoved user request now decided_at s t r b target c a =
    let can = check_approval-ok user request now s r b target a.checked in
    let valid =
      All-find RequestIsValid (λ x. x.id == request) s.requests c.requests_valid can.found in
    let open_row : is_open_request request r ≡ true = ground (arith, can.pending) in
    let at = find-fits (λ x. x.id == r.booking_id) s.bookings can.booked in
    let confirmed = can.confirmed in
    let in_place = can.in_place in
    let movable : is_movable r b ≡ true = ground (arith, ==_self b.slot_id) in
    let apart = valid.0.slots_apart in
    let there : (r.requested_slot_id == r.from_slot_id) ≡ false =
      ground (arith, apart, ==→eq r.requested_slot_id r.from_slot_id) in
    let holds : reserves r.requested_slot_id (move_row r.requested_slot_id b) ≡ true =
      ground (arith, ==_self r.requested_slot_id) in
    let elsewhere : reserves r.requested_slot_id b ≡ false =
      ground (arith, apart, ==→eq b.slot_id r.requested_slot_id) in
    let here : reserves r.from_slot_id b ≡ true = ground (arith, ==_self r.from_slot_id) in
    let left : reserves r.from_slot_id (move_row r.requested_slot_id b) ≡ false = ground arith in
    let counts = λ (slot : Uuid).
      count_where-update_where_once (reserves slot) (λ x. x.id == r.booking_id) (is_movable r)
        (move_row r.requested_slot_id) s.bookings can.booked movable a.moved in
    record {
      decided =
          ap (find (λ x. x.id == request)) a.requests
          ∙ find-update_where (λ x. x.id == request) (is_open_request request)
              (approve_row user decided_at) s.requests can.found (λ x. refl)
          ∙ rw open_row refl;
      moved =
          ap (find (λ x. x.id == r.booking_id)) a.bookings
          ∙ find-update_where (λ x. x.id == r.booking_id) (is_movable r)
              (move_row r.requested_slot_id) s.bookings can.booked (λ x. refl)
          ∙ rw movable refl;
      released =
          ap (count_where (reserves r.from_slot_id)) a.bookings
          ∙ ground (arith, counts r.from_slot_id, c.slots_exclusive r.from_slot_id, here, left);
      taken =
          ap (count_where (reserves r.requested_slot_id)) a.bookings
          ∙ ground (
            arith,
            counts r.requested_slot_id,
            any-eq_false (reserves r.requested_slot_id) s.bookings can.free,
            holds,
            elsewhere,
          );
    }

-- An approval moves the booking with the decision, or does nothing: in consistent tables, it either
-- throws and leaves every table as it was, or it is made by a participant of the booking, who has
-- not asked for it, on a pending request for a live, future and unreserved slot of the same tutor;
-- then the request is found approved, its booking is found in the requested slot, which no other
-- booking holds, and no booking holds the slot that it left.
pub approve_request-moves :
    (user request : Uuid) (now decided_at : Time) (seen : Store) (refusal : Option Value)
    (s t : Store) {result : Result ApproveResponse}
    → IsConsistent s
    → approve_request user request now decided_at seen refusal s ≡ (result, t)
    → ((e : Exception) × (result ≡ throw e) × (t ≡ s))
      ⊎ ((r : RescheduleRequest) × (b : Booking) × (target : AvailabilitySlot) × IsApprovable user
            request now s r b target
          × IsMoved user request decided_at r b t)
unfolding approve_request
approve_request-moves user request now decided_at seen refusal s t {result} c h =
    elim (Result-cases result) [
      | inr (e, thrown) ↦ inl (e, thrown, ground arith)
      | inl (a, returned) ↦ elim (Result-cases (check_approval user request now s)) [
        | inr (e, failed) ↦ absurd (ground arith)
        | inl ((r, b, target), checked) ↦ inr (
          r,
          b,
          target,
          check_approval-ok user request now s r b target checked,
          Approval-IsMoved user request now decided_at s t r b target c (record {
            checked = checked;
            requests = ground arith;
            decided = ground arith;
            bookings = ground arith;
            moved = ground arith;
          }),
        )
      ]
    ]
