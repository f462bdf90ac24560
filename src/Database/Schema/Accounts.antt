-- ===== src/Database/Schema/Accounts.antt =====
-- The rows of apps/api/prisma/schema.prisma for one-time tokens, sessions and reviews. A digest of
-- a token is a number, since the code only compares digests.
use hktutor.Shared.{ℕ, Option, Text}
use hktutor.Database.Schema.Keys.{Uuid, Time}

-- `EmailVerificationToken` and `PasswordResetToken`, which have the same columns.
pub record OneTimeToken : Type 0 where
  pub id : Uuid
  pub user_id : Uuid
  pub token_hash : ℕ
  pub expires_at : Time
  pub consumed_at : Option Time
  pub created_at : Time

pub record AuthSession : Type 0 where
  pub id : Uuid
  pub user_id : Uuid
  pub refresh_token_hash : ℕ
  pub expires_at : Time
  pub revoked_at : Option Time
  pub last_used_at : Option Time

pub record Review : Type 0 where
  pub id : Uuid
  pub booking_id : Uuid
  pub author_student_user_id : Uuid
  pub tutor_profile_id : Uuid
  pub clarity : ℕ
  pub punctuality : ℕ
  pub preparation : ℕ
  pub feedback : Text
  pub created_at : Time
