-- ===== src/Payments/Attempts.antt =====
-- payments.service.ts: `ownedBooking`, `response`, `attemptResponse` and the latest attempt.
use hktutor.Shared.{
  ℕ, Bool, true, false, Option, none, some, List, [], ◌∷◌, ◌&&◌, ◌||◌, ◌==◌, ◌!=◌, ltb,
  if◌then◌else◌,
}
use hktutor.Database.Enums.{PaymentStatus, PaymentAttemptStatus}
use hktutor.Database.Schema.{Uuid, Time, Store, Booking, PaymentAttempt}
use hktutor.Database.Exceptions.{booking_not_found, foreign_student}
use hktutor.Database.Results.{Result, ok, ◌>>=◌, ◌>>◌, or_throw, throw_if}
use hktutor.Database.Queries.{find_booking}

-- `ownedBooking`
unfoldable pub owned_booking : Uuid → Uuid → Store → Result Booking
owned_booking booking_id student s = do
  booking ← or_throw (find_booking booking_id s) booking_not_found
  throw_if (booking.student_user_id != student) foreign_student
  ok booking

abbrev pub is_newer : PaymentAttempt → PaymentAttempt → Bool
is_newer a b = ltb b.created_at a.created_at || a.created_at == b.created_at && ltb b.id a.id

abbrev pub newer : PaymentAttempt → Option PaymentAttempt → PaymentAttempt
newer a none = a
newer a (some b) = if is_newer a b then a else b

-- `findFirst` by `bookingId`, ordered by `createdAt` and `id`, the latest first.
unfoldable pub latest_attempt : Uuid → List PaymentAttempt → Option PaymentAttempt
latest_attempt booking [] = none
latest_attempt booking (a ∷ older) =
    let rest = latest_attempt booking older in
    if a.booking_id == booking then some (newer a rest) else rest

pub record AttemptResponse : Type 0 where
  pub id : Uuid
  pub status : PaymentAttemptStatus
  pub amount : ℕ
  pub currency : ℕ
  pub charge_id : Option ℕ
  pub qr_code_url : Option ℕ
  pub expires_at : Option Time
  pub failure_code : Option ℕ

abbrev pub is_attempt_pending : PaymentAttemptStatus → Bool
is_attempt_pending PaymentAttemptStatus.pending = true
is_attempt_pending _ = false

-- `attemptResponse`
unfoldable pub attempt_response : PaymentAttempt → AttemptResponse
attempt_response a = record {
  id = a.id;
  status = a.status;
  amount = a.amount;
  currency = a.currency;
  charge_id = a.charge_id;
  qr_code_url = if is_attempt_pending a.status then a.qr_code_url else none;
  expires_at = a.expires_at;
  failure_code = a.failure_code;
}

pub record PaymentResponse : Type 0 where
  pub booking_id : Uuid
  pub payment_status : PaymentStatus
  pub payment_pending : Bool
  pub paid_at : Option Time
  pub reference : Option ℕ
  pub attempt : Option AttemptResponse

abbrev pub first_some : Option ℕ → Option ℕ → Option ℕ
first_some none b = b
first_some (some a) b = some a

abbrev pub maybe_response : Option PaymentAttempt → Option AttemptResponse
maybe_response none = none
maybe_response (some a) = some (attempt_response a)

-- `response`
unfoldable pub payment_response : Uuid → Uuid → Store → Result PaymentResponse
unfolding owned_booking
payment_response booking_id student s = do
  booking ← owned_booking booking_id student s
  ok (record {
    booking_id = booking_id;
    payment_status = booking.payment_status;
    payment_pending = booking.payment_pending;
    paid_at = booking.paid_at;
    reference = first_some booking.payment_reference booking.mock_reference;
    attempt = maybe_response (latest_attempt booking_id s.attempts);
  })
