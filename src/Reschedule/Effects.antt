-- ===== src/Reschedule/Effects.antt =====
-- What the operations of reschedule-requests.service.ts leave in the tables, whatever they return.
use hktutor.Shared.{
  ◌≡◌, ◌⊎◌, Option, arith, update_where, inr, inl, ◌++◌, count_where, ◌∷◌, [], Option-cases, some,
  ◌==◌, true, ◌≢◌, find-fits,
}
use hktutor.Reschedule.Create.Checks.{RescheduleInput, check_request}
use hktutor.Database.Schema.{Uuid, Time, Store, RescheduleRequest, Booking, AvailabilitySlot}
use hktutor.Database.Values.{Value}
use hktutor.Reschedule.Create.{create_request, new_request}
use hktutor.Reschedule.Approve.{approve_request, is_open_request, approve_row, is_movable, move_row}
use hktutor.Reschedule.Close.{reject_request, withdraw_request, reject_row, withdraw_row}
use hktutor.Reschedule.Approve.Checks.{check_approval}
use hktutor.Database.Results.{Result-cases, ok}
use hktutor.Reschedule.Access.{assert_active_user_with_consent, read_locked_request}
use hktutor.Database.Queries.{find_request}

module _ (input : RescheduleInput) (id : Uuid) (now requested_at : Time) (seen : Store)
    (refusal : Option Value) (s : Store) where
  pub request-requests :
      let t = (create_request input id now requested_at seen refusal s).1 in
      (t.requests ≡ s.requests)
      ⊎ ((b : Booking) × (check_request input now s ≡ ok b)
          × (t.requests ≡ s.requests ++ new_request id requested_at input b ∷ []))
  unfolding create_request
  request-requests = elim (Result-cases (check_request input now s)) [
    | inr (e, p) ↦ inl (ground arith)
    | inl (b, p) ↦ elim (Result-cases (assert_active_user_with_consent input.user_id seen)) [
      | inr (e, q) ↦ inl (ground arith)
      | inl (u, q) ↦ elim (Option-cases refusal) [
        | inr (v, refused) ↦ inl (ground arith)
        | inl none_refused ↦
            elim (Result-cases (create_request input id now requested_at seen refusal s).0) [
              | inr (e, thrown) ↦ inl (ground arith)
              | inl (r, returned) ↦ inr (b, p, ground arith)
            ]
      ]
    ]
  ]

  pub request-others :
      let t = (create_request input id now requested_at seen refusal s).1 in
      (t.bookings ≡ s.bookings) × (t.attempts ≡ s.attempts) × (t.slots ≡ s.slots)
  unfolding create_request
  request-others = ground arith

-- What an approval has checked, and what it leaves.
pub record Approval (user request : Uuid) (now decided_at : Time) (s t : Store)
    (r : RescheduleRequest) (b : Booking) (target : AvailabilitySlot) : Type 0 where
  pub checked : check_approval user request now s ≡ ok (r, b, target)
  pub requests :
      t.requests ≡ update_where (is_open_request request) (approve_row user decided_at) s.requests
  pub decided : count_where (is_open_request request) s.requests ≡ 1
  pub bookings : t.bookings ≡ update_where (is_movable r) (move_row r.requested_slot_id) s.bookings
  pub moved : count_where (is_movable r) s.bookings ≡ 1

module _ (user request : Uuid) (now decided_at : Time) (seen : Store) (refusal : Option Value)
    (s : Store) where
  pub approve-tables :
      let t = (approve_request user request now decided_at seen refusal s).1 in
      (t.requests ≡ s.requests) × (t.bookings ≡ s.bookings)
      ⊎ ((r : RescheduleRequest) × (b : Booking) × (target : AvailabilitySlot) × Approval user
            request now decided_at s t r b target)
  unfolding approve_request
  approve-tables = elim (Result-cases (check_approval user request now s)) [
    | inr (e, p) ↦ inl (ground arith)
    | inl ((r, b, target), p) ↦
        elim (Result-cases (approve_request user request now decided_at seen refusal s).0) [
          | inr (e, thrown) ↦ inl (ground arith)
          | inl (a, returned) ↦ inr (r, b, target, ground arith)
        ]
  ]

  pub approve-others :
      let t = (approve_request user request now decided_at seen refusal s).1 in
      (t.attempts ≡ s.attempts) × (t.slots ≡ s.slots)
  unfolding approve_request
  approve-others = ground arith

module _ (user request : Uuid) (now : Time) (seen : Store) (refusal : Option Value)
    (s : Store) where
  pub reject-requests :
      let t = (reject_request user request now seen refusal s).1 in
      (t.requests ≡ s.requests)
      ⊎ ((r : RescheduleRequest) × (find_request request s ≡ some r)
          × (is_open_request request r ≡ true)
          × (r.requested_by_id ≢ user)
          × (t.requests ≡ update_where (is_open_request request) (reject_row user now) s.requests)
          × (count_where (is_open_request request) s.requests ≡ 1))
  unfolding reject_request read_locked_request
  reject-requests = elim (Option-cases (find_request request s)) [
    | inl missing ↦ inl (ground arith)
    | inr (r, found) ↦ elim (Result-cases (reject_request user request now seen refusal s).0) [
      | inr (e, thrown) ↦ inl (ground arith)
      | inl (a, returned) ↦ inr (
        r,
        found,
        ground (arith, find-fits (λ x. x.id == request) s.requests found),
        ground arith,
        ground arith,
        ground arith,
      )
    ]
  ]

  pub reject-others :
      let t = (reject_request user request now seen refusal s).1 in
      (t.bookings ≡ s.bookings) × (t.attempts ≡ s.attempts) × (t.slots ≡ s.slots)
  unfolding reject_request
  reject-others = ground arith

  pub withdraw-requests :
      let t = (withdraw_request user request now seen refusal s).1 in
      (t.requests ≡ s.requests)
      ⊎ ((r : RescheduleRequest) × (find_request request s ≡ some r)
          × (is_open_request request r ≡ true)
          × (r.requested_by_id ≡ user)
          × (t.requests ≡ update_where (is_open_request request) (withdraw_row now) s.requests)
          × (count_where (is_open_request request) s.requests ≡ 1))
  unfolding withdraw_request read_locked_request
  withdraw-requests = elim (Option-cases (find_request request s)) [
    | inl missing ↦ inl (ground arith)
    | inr (r, found) ↦ elim (Result-cases (withdraw_request user request now seen refusal s).0) [
      | inr (e, thrown) ↦ inl (ground arith)
      | inl (a, returned) ↦ inr (
        r,
        found,
        ground (arith, find-fits (λ x. x.id == request) s.requests found),
        ground arith,
        ground arith,
        ground arith,
      )
    ]
  ]

  pub withdraw-others :
      let t = (withdraw_request user request now seen refusal s).1 in
      (t.bookings ≡ s.bookings) × (t.attempts ≡ s.attempts) × (t.slots ≡ s.slots)
  unfolding withdraw_request
  withdraw-others = ground arith
