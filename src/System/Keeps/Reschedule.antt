-- ===== src/System/Keeps/Reschedule.antt =====
-- The operations of reschedule-requests.service.ts keep the invariant.
use hktutor.Shared.{
  refl, List, Option, ◌≡◌, find, count_where, ◌==◌, some, inl, ◌≢◌, All-find, any-eq_false, inr,
  true, All-append, arith, false, update_where, ==→eq, All-update_where_once, count_where-append,
  count_where-update_where_mono, ◌∷◌, [], find-fits, All-update_where, Bool-cases,
  count_where-update_where_le, count_where-update_where_same, ◌∙◌, sym,
}
use hktutor.Database.Schema.{
  Store, Uuid, RescheduleRequest, Time, Booking, AvailabilitySlot, PaymentAttempt,
}
use hktutor.Reschedule.Create.Checks.{check_request, RescheduleInput, is_open_of}
use hktutor.Reschedule.Approve.Checks.{check_approval}
use hktutor.System.Invariant.{
  IsConsistent, Consistent, RequestIsValid, BookingIsValid, has_booking_id, is_locked,
}
use hktutor.Database.Values.{Value}
use hktutor.Database.Results.{ok}
use hktutor.Reschedule.Create.{create_request, new_request}
use hktutor.Reschedule.Close.{reject_request, reject_row, withdraw_request, withdraw_row}
use hktutor.Database.Queries.{find_request, find_slot, is_slot_reserved, reserves}
use hktutor.Reschedule.Effects.{
  reject-others, request-others, reject-requests, request-requests, Approval, approve-others,
  withdraw-others, approve-tables, withdraw-requests,
}
use hktutor.Reschedule.Approve.{is_open_request, approve_request, is_movable, move_row, approve_row}
use hktutor.Database.Enums.{is_request_open}

-- A decision on the open request that was found, and on no other.
decide-Consistent :
    (i : Uuid) (f : RescheduleRequest → RescheduleRequest) {bs : List Booking}
    {rs : List RescheduleRequest} {ps : List PaymentAttempt} {r : RescheduleRequest}
    → find (λ x. x.id == i) rs ≡ some r
    → is_open_request i r ≡ true
    → count_where (is_open_request i) rs ≡ 1
    → RequestIsValid (f r)
    → ((x : RescheduleRequest) → is_request_open (f x).status ≡ false)
    → Consistent bs rs ps
    → Consistent bs (update_where (is_open_request i) f rs) ps
decide-Consistent i f {rs} found hit once valid closed c = record {
  bookings_valid = c.bookings_valid;
  requests_valid =
      All-update_where_once RequestIsValid (λ x. x.id == i) (is_open_request i) f rs found hit once
        c.requests_valid valid;
  slots_exclusive = c.slots_exclusive;
  one_open_request = λ b. omega (
    arith,
    c.one_open_request b,
    count_where-update_where_mono (is_open_of b) (is_open_request i) f rs
        (λ x h k. ground (arith, closed x)),
  );
  booking_ids = c.booking_ids;
  attempt_ids = c.attempt_ids;
  locked_by_attempt = c.locked_by_attempt;
}

-- A request that is found is valid.
found-IsValid :
    (i : Uuid) {bs : List Booking} {rs : List RescheduleRequest} {ps : List PaymentAttempt}
    {r : RescheduleRequest}
    → Consistent bs rs ps
    → find (λ x. x.id == i) rs ≡ some r
    → RequestIsValid r
found-IsValid i {rs} c found =
    (All-find RequestIsValid (λ x. x.id == i) rs c.requests_valid found).0

check_request-passed :
    (input : RescheduleInput) (now : Time) (s : Store) {b : Booking}
    → check_request input now s ≡ ok b
    → (count_where (is_open_of b.id) s.requests ≡ 0) × (b.slot_id ≢ input.target_slot_id)
unfolding check_request
check_request-passed input now s {b} h =
    (any-eq_false (is_open_of b.id) s.requests (ground arith), ground arith)

check_approval-passed :
    (user request : Uuid) (now : Time) (s : Store) {r : RescheduleRequest} {b : Booking}
    {target : AvailabilitySlot}
    → check_approval user request now s ≡ ok (r, b, target)
    → (find_request request s ≡ some r)
      × (is_request_open r.status ≡ true)
      × (r.requested_by_id ≢ user)
      × (find_slot r.requested_slot_id s ≡ some target)
      × (is_slot_reserved target.id s ≡ false)
unfolding check_approval
check_approval-passed user request now s h = ground arith

module _ (s : Store) (c : IsConsistent s) where
  pub request-IsConsistent :
      (input : RescheduleInput) (id : Uuid) (now requested_at : Time) (seen : Store)
      (refusal : Option Value)
      → IsConsistent (create_request input id now requested_at seen refusal s).1
  request-IsConsistent input id now requested_at seen refusal =
      let (same_bookings, same_attempts, _) =
        request-others input id now requested_at seen refusal s in
      elim (request-requests input id now requested_at seen refusal s) [
        | inl same ↦ rw (same, same_bookings, same_attempts) c
        | inr (b, checked, added) ↦
            let (free, apart) = check_request-passed input now s checked in
            rw (added, same_bookings, same_attempts)
              (record {
                bookings_valid = c.bookings_valid;
                requests_valid =
                    All-append RequestIsValid s.requests (new_request id requested_at input b)
                      c.requests_valid (ground arith);
                slots_exclusive = c.slots_exclusive;
                one_open_request = λ i. ground (
                  arith,
                  c.one_open_request i,
                  ==→eq b.id i,
                  count_where-append (is_open_of i) s.requests
                      (new_request id requested_at input b ∷ []),
                );
                booking_ids = c.booking_ids;
                attempt_ids = c.attempt_ids;
                locked_by_attempt = c.locked_by_attempt;
              })
      ]

  pub reject-IsConsistent :
      (user request : Uuid) (now : Time) (seen : Store) (refusal : Option Value)
      → IsConsistent (reject_request user request now seen refusal s).1
  reject-IsConsistent user request now seen refusal =
      let (same_bookings, same_attempts, _) = reject-others user request now seen refusal s in
      elim (reject-requests user request now seen refusal s) [
        | inl same ↦ rw (same, same_bookings, same_attempts) c
        | inr (r, found, hit, other, changed, once) ↦
            let valid = found-IsValid request c found in
            rw (changed, same_bookings, same_attempts)
              (decide-Consistent request (reject_row user now) found hit once (ground arith)
                (λ x. refl) c)
      ]

  pub withdraw-IsConsistent :
      (user request : Uuid) (now : Time) (seen : Store) (refusal : Option Value)
      → IsConsistent (withdraw_request user request now seen refusal s).1
  withdraw-IsConsistent user request now seen refusal =
      let (same_bookings, same_attempts, _) = withdraw-others user request now seen refusal s in
      elim (withdraw-requests user request now seen refusal s) [
        | inl same ↦ rw (same, same_bookings, same_attempts) c
        | inr (r, found, hit, own, changed, once) ↦
            let valid = found-IsValid request c found in
            rw (changed, same_bookings, same_attempts)
              (decide-Consistent request (withdraw_row now) found hit once (ground arith)
                (λ x. refl) c)
      ]

  -- The bookings behind an approval: the one that moves takes a slot that none holds.
  move-Consistent :
      {t : Store} (user request : Uuid) (now decided_at : Time) {r : RescheduleRequest}
      {b : Booking} {target : AvailabilitySlot}
      → Approval user request now decided_at s t r b target
      → Consistent
          (update_where (is_movable r) (move_row r.requested_slot_id) s.bookings)
          s.requests
          s.attempts
  move-Consistent user request now decided_at {r} {b} {target} p =
      let (found, still_open, other, target_found, free) =
        check_approval-passed user request now s p.checked in
      let none_there : count_where (reserves target.id) s.bookings ≡ 0 =
        any-eq_false (reserves target.id) s.bookings free in
      let same : target.id ≡ r.requested_slot_id =
        ==→eq target.id r.requested_slot_id
          (find-fits (λ a. a.id == r.requested_slot_id) s.slots target_found) in
      let empty : count_where (reserves r.requested_slot_id) s.bookings ≡ 0 =
        rw (← same) none_there in
      let f : Booking → Booking = move_row r.requested_slot_id in
      record {
        bookings_valid =
            All-update_where BookingIsValid (is_movable r) f s.bookings (λ x h v. ground arith)
              c.bookings_valid;
        requests_valid = c.requests_valid;
        slots_exclusive = λ slot. elim (Bool-cases (slot == r.requested_slot_id)) [
          | inl taken ↦ rw (==→eq slot r.requested_slot_id taken) (
              omega (
                arith,
                empty,
                p.moved,
                count_where-update_where_le (reserves r.requested_slot_id) (is_movable r) f
                    s.bookings,
              ))
          | inr elsewhere ↦ omega (
            arith,
            c.slots_exclusive slot,
            count_where-update_where_mono (reserves slot) (is_movable r) f s.bookings
                (λ x h k. ground arith),
          )
        ];
        one_open_request = c.one_open_request;
        booking_ids = λ i. omega (
          arith,
          c.booking_ids i,
          count_where-update_where_same (has_booking_id i) (is_movable r) f s.bookings
              (λ x h. refl),
        );
        attempt_ids = c.attempt_ids;
        locked_by_attempt = λ i.
            c.locked_by_attempt i
            ∙ sym (
                count_where-update_where_same (is_locked i) (is_movable r) f s.bookings
                  (λ x h. refl));
      }

  pub approve-IsConsistent :
      (user request : Uuid) (now decided_at : Time) (seen : Store) (refusal : Option Value)
      → IsConsistent (approve_request user request now decided_at seen refusal s).1
  approve-IsConsistent user request now decided_at seen refusal =
      let (same_attempts, _) = approve-others user request now decided_at seen refusal s in
      elim (approve-tables user request now decided_at seen refusal s) [
        | inl (same_requests, same_bookings) ↦ rw (same_requests, same_bookings, same_attempts) c
        | inr (r, b, target, p) ↦
            let (found, still_open, other, _, _) =
              check_approval-passed user request now s p.checked in
            let valid = found-IsValid request c found in
            rw (p.requests, p.bookings, same_attempts)
              (decide-Consistent request (approve_row user decided_at) found
                (ground (arith, find-fits (λ x. x.id == request) s.requests found)) p.decided
                (ground arith) (λ x. refl) (move-Consistent user request now decided_at p))
      ]
