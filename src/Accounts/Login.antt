-- ===== src/Accounts/Login.antt =====
-- auth.service.ts: `login`.
use hktutor.Shared.{none, some, ℕ, Option, Bool, false, ◌==◌, ◌&&◌, find, not, any, is_none}
use hktutor.Database.Results.{or_throw, throw_if}
use hktutor.Database.Actions.{◌>>=◌, ◌>>◌, Action, reads, fail_if, transaction}
use hktutor.Database.Schema.{Uuid, User, Store}
use hktutor.Accounts.Sessions.{
  Token, JwtPayload, Renewal, create_session, AuthResult, is_verified_live,
}
use hktutor.Database.Values.{Value}
use hktutor.Accounts.Passwords.{has_email}
use hktutor.Database.Exceptions.{wrong_credentials, inactive_login, unverified_login}
use hktutor.Database.Enums.{is_account_active}

pub record Credentials : Type 0 where
  pub email : ℕ
  pub password : ℕ

abbrev pub has_hash : ℕ → Option ℕ → Bool
has_hash hash none = false
has_hash hash (some h) = h == hash

-- `id, passwordHash, deletedAt: null, accountStatus: ACTIVE, emailVerifiedAt: { not: null }`
abbrev pub is_same_login : Uuid → ℕ → User → Bool
is_same_login id hash u = u.id == id && has_hash hash u.password_hash && is_verified_live u

-- `verify` of the password service, `false` where it throws, is the Argon2 library's.
module _ (digest : Token → ℕ) (verify_refresh_token : Token → Option JwtPayload)
    (verify_password : ℕ → ℕ → Bool) where
  -- The body of the transaction of `login`.
  unfoldable pub write_login : User → ℕ → Uuid → Renewal → Action AuthResult
  unfolding create_session
  write_login user hash session_id renewal = do
    reads (λ s. throw_if (not (any (is_same_login user.id hash) s.users)) wrong_credentials)
    create_session digest verify_refresh_token user session_id renewal

  -- `login`. `seen` is the store when the account was looked up.
  unfoldable pub login : Credentials → Uuid → Renewal → Store → Option Value → Action AuthResult
  unfolding write_login
  login dto session_id renewal seen refusal = do
    user ← reads (λ s. or_throw (find (has_email dto.email) seen.users) wrong_credentials)
    hash ← reads (λ s. or_throw user.password_hash wrong_credentials)
    fail_if (not (verify_password hash dto.password)) wrong_credentials
    fail_if (not (is_account_active user.account_status)) inactive_login
    fail_if (is_none user.email_verified_at) unverified_login
    transaction refusal (write_login user hash session_id renewal)
