-- ===== src/Payments/Create.antt =====
-- payments.service.ts: `create`.
use hktutor.Shared.{
  ℕ, Bool, true, false, not, Option, none, some, ◌+◌, ◌*◌, ◌&&◌, ◌||◌, ◌==◌, ◌!=◌, ltb,
  if◌then◌else◌,
}
use hktutor.Database.Enums.{PaymentAttemptStatus, is_creating, is_confirmed, is_unpaid, is_paid}
use hktutor.Database.Values.{Value}
use hktutor.Database.Schema.{Uuid, Time, Store, Booking, PaymentAttempt}
use hktutor.Database.Exceptions.{
  payment_not_configured, payment_state_conflict, payment_amount_unsupported, provider_rejected,
}
use hktutor.Database.Results.{throw}
use hktutor.Database.Actions.{
  Action, ◌>>=◌, ◌>>◌, pure, reads, fail_if, update_bookings, update_attempts, insert_attempt,
  transaction, interleave,
}
use hktutor.Bookings.Amounts.{thb}
use hktutor.Payments.Charges.{Reply, charged, absent, request_rejected, request_failed, Provider}
use hktutor.Payments.Attempts.{owned_booking, PaymentResponse, payment_response}
use hktutor.Payments.Settlement.{apply_charge, get_status}

pub record PaymentInput : Type 0 where
  pub booking_id : Uuid
  pub student_user_id : Uuid
  pub attempt_id : Uuid
  pub now : Time

-- The `where` of the claim, which serializes payment with cancellation.
abbrev pub is_claimable : PaymentInput → ℕ → Booking → Bool
is_claimable input amount b =
    b.id == input.booking_id
    && b.student_user_id == input.student_user_id
    && is_confirmed b.status
    && is_unpaid b.payment_status
    && not b.payment_pending
    && b.net_amount == amount
    && b.currency == thb

abbrev pub claim_row : Booking → Booking
claim_row b = record b { payment_pending = true }

abbrev pub new_attempt : PaymentInput → ℕ → PaymentAttempt
new_attempt input amount = record {
  id = input.attempt_id;
  booking_id = input.booking_id;
  amount = amount;
  currency = thb;
  status = PaymentAttemptStatus.creating;
  charge_id = none;
  qr_code_url = none;
  expires_at = none;
  paid_at = none;
  failure_code = none;
  created_at = input.now;
}

-- The transaction that claims the booking: `null` if another request was first.
unfoldable pub claim : PaymentInput → ℕ → Option Value → Action (Option PaymentAttempt)
claim input amount refusal = transaction refusal do
  count ← update_bookings (is_claimable input amount) claim_row
  if count != 1 then pure none else insert_attempt (new_attempt input amount) >>= λ a. pure (some a)

-- The code 'provider_rejected'.
abbrev pub provider_rejected_code : ℕ
provider_rejected_code = 0

abbrev pub is_own_creating : PaymentInput → PaymentAttempt → Bool
is_own_creating input a = a.id == input.attempt_id && is_creating a.status

abbrev pub fail_row : PaymentAttempt → PaymentAttempt
fail_row a = record a {
  status = PaymentAttemptStatus.failed;
  failure_code = some provider_rejected_code;
}

abbrev pub is_own_unpaid : PaymentInput → Booking → Bool
is_own_unpaid input b = b.id == input.booking_id && is_unpaid b.payment_status

abbrev pub release_row : Booking → Booking
release_row b = record b { payment_pending = false }

-- The transaction behind a definitive rejection by the provider.
unfoldable pub release : PaymentInput → Option Value → Action (Unit {0})
release input refusal = transaction refusal do
  count ← update_attempts (is_own_creating input) fail_row
  if count == 1 then (update_bookings (is_own_unpaid input) release_row >> pure tt) else pure tt

-- What follows the provider's answer. An uncertain request stays locked.
unfoldable pub charge_attempt : PaymentInput → Option Value → Reply → Action PaymentResponse
unfolding apply_charge release payment_response
charge_attempt input refusal (charged c) =
    apply_charge c input.attempt_id refusal
    >> reads (payment_response input.booking_id input.student_user_id)
charge_attempt input refusal request_rejected =
    release input refusal >> reads (λ _. throw provider_rejected)
charge_attempt input refusal (request_failed e) = reads (λ _. throw e)
charge_attempt input refusal absent =
    reads (payment_response input.booking_id input.student_user_id)

-- `create`, where `enabled` is the test of `assertEnabled`, and other requests may commit ahead of
-- the claim, ahead of the provider's answer and while a status is refreshed. The database may
-- refuse the claim and the transaction after it independently.
module _ (provider : Provider) (enabled : Bool) (input : PaymentInput) (others : Store → Store)
    (claim_refusal refusal : Option Value) where
  abbrev current_status : Action PaymentResponse
  current_status =
      get_status provider input.booking_id input.student_user_id input.now others refusal

  unfoldable pub after_claim : ℕ → Option PaymentAttempt → Action PaymentResponse
  unfolding owned_booking charge_attempt get_status
  after_claim amount none = do
    current ← reads (owned_booking input.booking_id input.student_user_id)
    if current.payment_pending || is_paid current.payment_status
        then current_status
        else reads (λ _. throw payment_state_conflict)
  after_claim amount (some attempt) =
      interleave others
      >> charge_attempt input refusal (
          provider.create_charge (record {
            amount = amount;
            attempt_id = input.attempt_id;
            booking_id = input.booking_id;
            expires_at = input.now + 15 * 60000;
          }))

  unfoldable pub start_payment : Booking → Action PaymentResponse
  unfolding after_claim claim
  start_payment booking = do
    fail_if (not (is_confirmed booking.status)) payment_state_conflict
    fail_if
        (booking.currency != thb || ltb booking.net_amount 2000 || ltb 15000000 booking.net_amount)
        payment_amount_unsupported
    interleave others
    attempt ← claim input booking.net_amount claim_refusal
    after_claim booking.net_amount attempt

  unfoldable pub create_payment : Action PaymentResponse
  unfolding owned_booking start_payment get_status
  create_payment = do
    fail_if (not enabled) payment_not_configured
    booking ← reads (owned_booking input.booking_id input.student_user_id)
    if is_paid booking.payment_status || booking.payment_pending
        then current_status
        else start_payment booking
