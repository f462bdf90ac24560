-- ===== src/Payments/Effects.antt =====
-- What the transactions of payments.service.ts leave in the tables, whatever they return.
use hktutor.Shared.{
  ◌≡◌, ◌⊎◌, Option, ℕ, Option-cases, arith, update_where, inl, some, inr, count_where, false,
  Bool-cases, ◌++◌, true, ◌∷◌, ◌≢◌, [], ◌!=◌,
}
use hktutor.Payments.Create.{
  PaymentInput, claim, release, is_claimable, is_own_creating, claim_row, fail_row, is_own_unpaid,
  new_attempt, release_row,
}
use hktutor.Payments.Charges.{OmiseCharge, ChargeStatus}
use hktutor.Database.Schema.{Uuid, Store, PaymentAttempt}
use hktutor.Database.Values.{Value}
use hktutor.Payments.Settlement.{
  apply_charge, is_mismatch, has_id, attempt_row, is_awaiting, settle_row,
}
use hktutor.Database.Queries.{find_attempt}
use hktutor.Database.Results.{Result-cases}
use hktutor.Database.Enums.{is_attempt_active}

module _ (input : PaymentInput) (amount : ℕ) (refusal : Option Value) (s : Store) where
  pub claim-tables :
      let t = (claim input amount refusal s).1 in
      (t.bookings ≡ s.bookings) × (t.attempts ≡ s.attempts)
      ⊎ (t.bookings ≡ update_where (is_claimable input amount) claim_row s.bookings)
        × ((count_where (is_claimable input amount) s.bookings ≢ 1) × (t.attempts ≡ s.attempts)
            ⊎ (count_where (is_claimable input amount) s.bookings ≡ 1)
              × (t.attempts ≡ s.attempts ++ new_attempt input amount ∷ []))
  unfolding claim
  claim-tables = elim (Option-cases refusal) [
    | inr (v, refused) ↦ inl (ground arith)
    | inl accepted ↦ elim (Bool-cases (count_where (is_claimable input amount) s.bookings != 1)) [
      | inl lost ↦ inr (rw (accepted, lost) (ground arith))
      | inr won ↦ inr (rw (accepted, won) (ground arith))
    ]
  ]

  pub claim-others :
      let t = (claim input amount refusal s).1 in (t.requests ≡ s.requests) × (t.slots ≡ s.slots)
  unfolding claim
  claim-others = ground arith

module _ (input : PaymentInput) (refusal : Option Value) (s : Store) where
  pub release-tables :
      let t = (release input refusal s).1 in
      (t.bookings ≡ s.bookings) × (t.attempts ≡ s.attempts)
      ⊎ (t.attempts ≡ update_where (is_own_creating input) fail_row s.attempts)
        × (((count_where (is_own_creating input) s.attempts ≡ 1)
              × (t.bookings ≡ update_where (is_own_unpaid input) release_row s.bookings))
            ⊎ ((count_where (is_own_creating input) s.attempts ≢ 1) × (t.bookings ≡ s.bookings)))
  unfolding release
  release-tables = ground arith

  pub release-others :
      let t = (release input refusal s).1 in (t.requests ≡ s.requests) × (t.slots ≡ s.slots)
  unfolding release
  release-others = ground arith

module _ (c : OmiseCharge) (expected : Uuid) (refusal : Option Value) (s : Store) where
  -- A charge that is applied: its attempt was found, active and matched, and is rewritten.
  abbrev pub Settles : Store → PaymentAttempt → Type 0
  Settles t a =
      (find_attempt c.attempt_id s ≡ some a)
      × (is_mismatch a c ≡ false)
      × (is_attempt_active a.status ≡ true)
      × (t.attempts ≡ update_where (has_id a.id) (attempt_row c) s.attempts)
      × ((c.status ≡ ChargeStatus.pending) × (t.bookings ≡ s.bookings)
          ⊎ (c.status ≢ ChargeStatus.pending)
            × (t.bookings ≡ update_where (is_awaiting a) (settle_row c c.status) s.bookings)
            × (count_where (is_awaiting a) s.bookings ≡ 1))

  pub apply-tables :
      let t = (apply_charge c expected refusal s).1 in
      (t.bookings ≡ s.bookings) × (t.attempts ≡ s.attempts) ⊎ ((a : PaymentAttempt) × Settles t a)
  unfolding apply_charge
  apply-tables = elim (Option-cases (find_attempt c.attempt_id s)) [
    | inl missing ↦ inl (ground arith)
    | inr (a, found) ↦ elim (Result-cases (apply_charge c expected refusal s).0) [
      | inr (e, thrown) ↦ inl (ground arith)
      | inl (u, returned) ↦ elim (Bool-cases (is_attempt_active a.status)) [
        | inl active ↦ inr (a, (found, ground arith, active, ground arith, ground arith))
        | inr settled ↦ inl (ground arith)
      ]
    ]
  ]

  pub apply-others :
      let t = (apply_charge c expected refusal s).1 in
      (t.requests ≡ s.requests) × (t.slots ≡ s.slots)
  unfolding apply_charge
  apply-others = ground arith
