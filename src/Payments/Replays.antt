-- ===== src/Payments/Replays.antt =====
-- `applyCharge` of payments.service.ts: which charges count as a payment, and the same charge
-- again.
use hktutor.Shared.{
  refl, inl, inr, some, none, Bool, ◌≡◌, ◌≢◌, Option, ◌⊎◌, arith, false, count_where, ==_self,
  find-update_where, true, update_where, ◌==◌, count_where-update_where_same, Option-cases, ◌∙◌,
  ==→eq, Bool-cases, ap, find,
}
use hktutor.Database.Schema.{Booking, PaymentAttempt, Uuid, Store}
use hktutor.Payments.Charges.{ChargeStatus, OmiseCharge}
use hktutor.Payments.Settlement.{
  apply_charge, is_mismatch, settle_row, attempt_row, attempt_status, is_awaiting, has_id,
}
use hktutor.Database.Enums.{is_paid, is_attempt_active}
use hktutor.Database.Values.{Value}
use hktutor.Database.Results.{ok}
use hktutor.Database.Queries.{find_attempt}
use hktutor.Payments.Effects.{apply-tables}

-- Whether a booking is paid for.
abbrev pub is_booking_paid : Booking → Bool
is_booking_paid b = is_paid b.payment_status

settle_row-unpaid :
    (c : OmiseCharge) (st : ChargeStatus) (b : Booking)
    → st ≢ ChargeStatus.successful
    → (settle_row c st b).payment_status ≡ b.payment_status
settle_row-unpaid c ChargeStatus.pending b h = refl
settle_row-unpaid c ChargeStatus.successful b h = elim (h refl) [ ]
settle_row-unpaid c ChargeStatus.failed b h = refl
settle_row-unpaid c ChargeStatus.expired b h = refl

successful-or-other :
    (st : ChargeStatus) → (st ≡ ChargeStatus.successful) ⊎ (st ≢ ChargeStatus.successful)
successful-or-other ChargeStatus.pending = inr (ground arith)
successful-or-other ChargeStatus.successful = inl refl
successful-or-other ChargeStatus.failed = inr (ground arith)
successful-or-other ChargeStatus.expired = inr (ground arith)

-- Where the number of paid bookings changes, the charge was successful and stands for the amount,
-- the currency and the booking of the attempt that it names.
pub apply_charge-pays :
    (c : OmiseCharge) (expected : Uuid) (refusal : Option Value) (s : Store)
    → count_where is_booking_paid (apply_charge c expected refusal s).1.bookings
      ≢ count_where is_booking_paid s.bookings
    → (c.status ≡ ChargeStatus.successful)
      × ((a : PaymentAttempt) × (find_attempt c.attempt_id s ≡ some a)
          × (a.booking_id ≡ c.booking_id)
          × (a.amount ≡ c.amount)
          × (a.currency ≡ c.currency)
          × (count_where (is_awaiting a) s.bookings ≡ 1))
apply_charge-pays c expected refusal s changed = elim (apply-tables c expected refusal s) [
  | inl (same, _) ↦ elim (changed (rw same refl)) [ ]
  | inr (a, (found, matches, active, attempts, outcome)) ↦ elim outcome [
    | inl (waits, same) ↦ elim (changed (rw same refl)) [ ]
    | inr (settled, updated, one) ↦ elim (successful-or-other c.status) [
      | inl paid_for ↦ (paid_for, (a, found, ground arith, ground arith, ground arith, one))
      | inr other ↦
          elim (changed (
            rw updated (
              count_where-update_where_same is_booking_paid (is_awaiting a) (settle_row c c.status)
                s.bookings (λ b h. rw (settle_row-unpaid c c.status b other) refl)))) [ ]
    ]
  ]
]

-- An attempt that a settled charge has reached: the charge matches it, and it is no longer active.
settled_row :
    (c : OmiseCharge) (a : PaymentAttempt)
    → c.status ≢ ChargeStatus.pending
    → is_mismatch a c ≡ false
    → (is_mismatch (attempt_row c a) c ≡ false)
      × (is_attempt_active (attempt_row c a).status ≡ false)
settled_row c a settled same = (ground (arith, ==_self c.id), inactive c.status settled)
  where
    inactive :
        (st : ChargeStatus)
        → st ≢ ChargeStatus.pending
        → is_attempt_active (attempt_status st) ≡ false
    inactive ChargeStatus.pending h = elim (h refl) [ ]
    inactive ChargeStatus.successful h = refl
    inactive ChargeStatus.failed h = refl
    inactive ChargeStatus.expired h = refl

applied_attempt :
    (c : OmiseCharge) (expected : Uuid) (s t : Store)
    → apply_charge c expected none s ≡ (ok tt, t)
    → (a : PaymentAttempt) × (find_attempt c.attempt_id s ≡ some a)
      × (c.attempt_id ≡ expected)
      × (is_mismatch a c ≡ false)
      × ((is_attempt_active a.status ≡ false) × (t ≡ s)
          ⊎ (is_attempt_active a.status ≡ true)
            × (t.attempts ≡ update_where (has_id a.id) (attempt_row c) s.attempts))
unfolding apply_charge
applied_attempt c expected s t h = elim (Option-cases (find_attempt c.attempt_id s)) [
  | inl missing ↦ ground arith
  | inr (a, found) ↦ (
    a,
    found,
    ground (arith, ==→eq c.attempt_id expected),
    ground arith,
    elim (Bool-cases (is_attempt_active a.status)) [
      | inl active ↦ inr (active, ground arith)
      | inr settled ↦ inl (settled, ground arith)
    ],
  )
]

apply_charge-inactive :
    (c : OmiseCharge) (expected : Uuid) (t : Store) {a : PaymentAttempt}
    → find_attempt c.attempt_id t ≡ some a
    → c.attempt_id ≡ expected
    → is_mismatch a c ≡ false
    → is_attempt_active a.status ≡ false
    → apply_charge c expected none t ≡ (ok tt, t)
unfolding apply_charge
apply_charge-inactive c expected t found own matches settled = ground (arith, ==_self expected)

-- A settled charge that has been applied may be reported any number of times, by the webhook, by a
-- request for the status or by the creation itself: to apply it again returns and changes nothing.
pub apply_charge-again :
    (c : OmiseCharge) (expected : Uuid) (s t : Store)
    → apply_charge c expected none s ≡ (ok tt, t)
    → c.status ≢ ChargeStatus.pending
    → apply_charge c expected none t ≡ (ok tt, t)
apply_charge-again c expected s t h settled =
    let (a, found, own, matches, outcome) = applied_attempt c expected s t h in
    elim outcome [
      | inl (inactive, same) ↦
          apply_charge-inactive c expected t {a = a} (ap (find_attempt c.attempt_id) same ∙ found)
            own matches inactive
      | inr (active, attempts) ↦
          let (still, inactive) = settled_row c a settled matches in
          let again : find_attempt c.attempt_id t ≡ some (attempt_row c a) =
            ap (find (λ x. x.id == c.attempt_id)) attempts
            ∙ find-update_where (λ x. x.id == c.attempt_id) (has_id a.id) (attempt_row c) s.attempts
                found (λ x. refl)
            ∙ ground (arith, ==_self a.id) in
          apply_charge-inactive c expected t again own still inactive
    ]
