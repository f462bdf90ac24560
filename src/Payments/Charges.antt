-- ===== src/Payments/Charges.antt =====
-- What infrastructure/payments/omise.service.ts hands to the payments service. The provider itself
-- is outside: its answers are a parameter.
use hktutor.Shared.{ℕ, Option}
use hktutor.Database.Schema.{Uuid, Time}
use hktutor.Database.Exceptions.{Exception}

pub data ChargeStatus : Type 0 where
  pending successful failed expired : ChargeStatus

-- `OmiseCharge`; an amount is in hundredths, as in the tables.
pub record OmiseCharge : Type 0 where
  pub id : ℕ
  pub amount : ℕ
  pub currency : ℕ
  pub booking_id : Uuid
  pub attempt_id : Uuid
  pub status : ChargeStatus
  pub paid_at : Option Time
  pub expires_at : Option Time
  pub qr_code_url : Option ℕ
  pub failure_code : Option ℕ

-- How a request ends: `absent` is the null of `findCharge`, `request_rejected` a definitive
-- rejection (`OmiseRequestRejected`), and `request_failed` any other throw.
pub data Reply : Type 0 where
  charged : OmiseCharge → Reply
  absent : Reply
  request_rejected : Reply
  request_failed : Exception → Reply

pub record ChargeRequest : Type 0 where
  pub amount : ℕ
  pub attempt_id : Uuid
  pub booking_id : Uuid
  pub expires_at : Time

pub record Provider : Type 0 where
  pub create_charge : ChargeRequest → Reply
  pub retrieve_charge : ℕ → Reply
  pub find_charge : Uuid → Time → Reply
