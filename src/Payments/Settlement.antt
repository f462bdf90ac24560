-- ===== src/Payments/Settlement.antt =====
-- payments.service.ts: `applyCharge`, `getStatus` and `webhook`.
use hktutor.Shared.{
  ℕ, Bool, false, Option, none, some, ◌+◌, ◌&&◌, ◌||◌, ◌==◌, ◌!=◌, leb, if◌then◌else◌, find,
}
use hktutor.Database.Enums.{PaymentAttemptStatus, paid, is_attempt_active, is_confirmed, is_unpaid}
use hktutor.Database.Values.{Value}
use hktutor.Database.Schema.{Uuid, Time, Store, Booking, PaymentAttempt}
use hktutor.Database.Exceptions.{
  charge_other_attempt, charge_mismatch, payment_state_conflict, provider_rejected, invalid_event,
  missing_charge_id,
}
use hktutor.Database.Results.{ok, throw, or_throw}
use hktutor.Database.Actions.{
  Action, ◌>>=◌, ◌>>◌, pure, reads, fail_if, update_bookings, update_attempts, transaction,
  interleave,
}
use hktutor.Database.Queries.{find_attempt}
use hktutor.Payments.Charges.{
  ChargeStatus, OmiseCharge, Reply, charged, absent, request_rejected, request_failed, Provider,
}
use hktutor.Payments.Attempts.{owned_booking, latest_attempt, PaymentResponse, payment_response}

abbrev pub attempt_status : ChargeStatus → PaymentAttemptStatus
attempt_status ChargeStatus.successful = PaymentAttemptStatus.successful
attempt_status ChargeStatus.failed = PaymentAttemptStatus.failed
attempt_status ChargeStatus.expired = PaymentAttemptStatus.expired
attempt_status ChargeStatus.pending = PaymentAttemptStatus.pending

abbrev pub paid_time : ChargeStatus → Option Time → Option Time
paid_time ChargeStatus.successful at = at
paid_time _ at = none

abbrev pub differs : Option ℕ → ℕ → Bool
differs none i = false
differs (some j) i = j != i

abbrev pub is_mismatch : PaymentAttempt → OmiseCharge → Bool
is_mismatch a c =
    a.booking_id != c.booking_id
    || a.amount != c.amount
    || a.currency != c.currency
    || differs a.charge_id c.id

abbrev pub attempt_row : OmiseCharge → PaymentAttempt → PaymentAttempt
attempt_row c a = record a {
  status = attempt_status c.status;
  charge_id = some c.id;
  qr_code_url = c.qr_code_url;
  expires_at = c.expires_at;
  paid_at = paid_time c.status c.paid_at;
  failure_code = c.failure_code;
}

-- The `where` of the booking that an attempt has locked.
abbrev pub is_awaiting : PaymentAttempt → Booking → Bool
is_awaiting a b =
    b.id == a.booking_id
    && is_confirmed b.status
    && is_unpaid b.payment_status
    && b.payment_pending
    && b.net_amount == a.amount
    && b.currency == a.currency

-- What a settled charge writes to the booking.
abbrev pub settle_row : OmiseCharge → ChargeStatus → Booking → Booking
settle_row c ChargeStatus.successful b = record b {
  payment_pending = false;
  payment_status = paid;
  paid_at = c.paid_at;
  payment_reference = some c.id;
}
settle_row c _ b = record b { payment_pending = false }

-- The update of the booking, which a pending charge does not reach.
unfoldable pub settle_booking : PaymentAttempt → OmiseCharge → ChargeStatus → Action (Unit {0})
settle_booking a c ChargeStatus.pending = pure tt
settle_booking a c status = do
  count ← update_bookings (is_awaiting a) (settle_row c status)
  fail_if (count != 1) payment_state_conflict

abbrev pub has_id : Uuid → PaymentAttempt → Bool
has_id i a = a.id == i

unfoldable pub settle : PaymentAttempt → OmiseCharge → Action (Unit {0})
unfolding settle_booking
settle a c = do update_attempts (has_id a.id) (attempt_row c); settle_booking a c c.status

-- `applyCharge`
unfoldable pub apply_charge : OmiseCharge → Uuid → Option Value → Action (Unit {0})
unfolding settle
apply_charge c expected refusal = do
  fail_if (c.attempt_id != expected) charge_other_attempt
  transaction refusal do
    attempt ← reads (λ s. or_throw (find_attempt c.attempt_id s) charge_mismatch)
    fail_if (is_mismatch attempt c) charge_mismatch
    if is_attempt_active attempt.status then settle attempt c else pure tt

-- A charge that a request returned is applied.
unfoldable pub apply_reply : Reply → Uuid → Option Value → Action (Unit {0})
unfolding apply_charge
apply_reply (charged c) attempt refusal = apply_charge c attempt refusal
apply_reply absent attempt refusal = pure tt
apply_reply request_rejected attempt refusal = reads (λ _. throw provider_rejected)
apply_reply (request_failed e) attempt refusal = reads (λ _. throw e)

-- The charge of an active attempt: by its id, or, from 15 seconds on, by its metadata.
unfoldable pub look_up : Provider → Time → PaymentAttempt → Option ℕ → Reply
look_up provider now a (some charge) = provider.retrieve_charge charge
look_up provider now a none =
    if leb (a.created_at + 15000) now then provider.find_charge a.id a.created_at else absent

unfoldable pub refresh :
    Provider → Time → (Store → Store) → Option Value → Option PaymentAttempt → Action (Unit {0})
unfolding apply_reply look_up
refresh provider now others refusal none = pure tt
refresh provider now others refusal (some a) =
    if is_attempt_active a.status
    then interleave others >> apply_reply (look_up provider now a a.charge_id) a.id refusal
    else pure tt

-- `getStatus`. Other requests may commit while the provider answers.
unfoldable pub get_status :
    Provider → Uuid → Uuid → Time → (Store → Store) → Option Value → Action PaymentResponse
unfolding owned_booking refresh payment_response
get_status provider booking_id student now others refusal = do
  reads (owned_booking booking_id student)
  attempt ← reads (λ s. ok (latest_attempt booking_id s.attempts))
  refresh provider now others refusal attempt
  reads (payment_response booking_id student)

-- What the tests of `webhook` on the body leave: no test event, another key, no charge id, or the
-- charge with the attempt that its metadata names.
pub data WebhookBody : Type 0 where
  malformed unrelated without_charge : WebhookBody
  charge_event : Option Uuid → ℕ → WebhookBody

abbrev pub is_charge : ℕ → PaymentAttempt → Bool
is_charge charge a = elim a.charge_id [ none ↦ false | some c ↦ c == charge ]

abbrev pub routed_attempt : Option Uuid → ℕ → Store → Option PaymentAttempt
routed_attempt none charge s = find (is_charge charge) s.attempts
routed_attempt (some attempt) charge s = find_attempt attempt s

unfoldable pub apply_event :
    Provider → ℕ → (Store → Store) → Option Value → Option PaymentAttempt → Action (Unit {0})
unfolding apply_reply
apply_event provider charge others refusal none = pure tt
apply_event provider charge others refusal (some a) =
    interleave others >> apply_reply (provider.retrieve_charge charge) a.id refusal

-- `webhook`
unfoldable pub webhook : Provider → WebhookBody → (Store → Store) → Option Value → Action (Unit {0})
unfolding apply_event
webhook provider malformed others refusal = reads (λ _. throw invalid_event)
webhook provider unrelated others refusal = pure tt
webhook provider without_charge others refusal = reads (λ _. throw missing_charge_id)
webhook provider (charge_event attempt charge) others refusal = do
  found ← reads (λ s. ok (routed_attempt attempt charge s))
  apply_event provider charge others refusal found
