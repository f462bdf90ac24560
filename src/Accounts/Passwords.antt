-- ===== src/Accounts/Passwords.antt =====
-- auth.service.ts: `issuePasswordReset` and `resetPassword`.
use hktutor.Shared.{
  none, some, ℕ, Bool, Option, find, if◌then◌else◌, is_none, ◌+◌, ◌==◌, any, ◌&&◌, is_some, ltb,
  not, ◌!=◌,
}
use hktutor.Database.Results.{ok, or_throw, throw_if}
use hktutor.Database.Actions.{
  ◌>>=◌, ◌>>◌, Action, reads, pure, fail_if, transaction, update_reset_tokens, insert_reset_token,
  update_users, update_verification_tokens, update_sessions,
}
use hktutor.Database.Schema.{Store, Time, User, Uuid, OneTimeToken}
use hktutor.Accounts.Sessions.{Token, is_verified_live, revoke_row}
use hktutor.Database.Values.{Value}
use hktutor.Database.Exceptions.{invalid_reset_link}

-- `emailVerifiedAt: { not: null }, passwordHash: { not: null }`, of a live account
abbrev pub may_reset : User → Bool
may_reset u = is_verified_live u && is_some u.password_hash

-- `userId, consumedAt: null`
abbrev pub is_open_token : Uuid → OneTimeToken → Bool
is_open_token user k = k.user_id == user && is_none k.consumed_at

abbrev pub consume_row : Time → OneTimeToken → OneTimeToken
consume_row now k = record k { consumed_at = some now }

-- `userId, createdAt: { gt: new Date(now.getTime() - 60_000) }`
abbrev pub is_recent : Uuid → Time → OneTimeToken → Bool
is_recent user now k = k.user_id == user && ltb now (k.created_at + 60000)

-- A random token, the id and the time that the database gives its row, the clock, and when the
-- token expires.
pub record Issue : Type 0 where
  pub token : Token
  pub id : Uuid
  pub now : Time
  pub expires_at : Time
  pub created_at : Time

-- `id, consumedAt: null, expiresAt: { gt: now }`
abbrev pub is_redeemable : Uuid → Time → OneTimeToken → Bool
is_redeemable id now k = k.id == id && is_none k.consumed_at && ltb now k.expires_at

abbrev pub find_reset_token : ℕ → Store → Option OneTimeToken
find_reset_token hash s = find (λ k. k.token_hash == hash) s.reset_tokens

-- `!record || record.consumedAt || record.expiresAt <= new Date()`
abbrev pub is_valid_token : Time → OneTimeToken → Bool
is_valid_token now k = is_none k.consumed_at && ltb now k.expires_at

-- `email`, of an account that is not deleted
abbrev pub has_email : ℕ → User → Bool
has_email email u = u.email == email && is_none u.deleted_at

module _ (digest : Token → ℕ) where
  unfoldable pub new_token : Uuid → Issue → OneTimeToken
  new_token user issue = record {
    id = issue.id;
    user_id = user;
    token_hash = digest issue.token;
    expires_at = issue.expires_at;
    consumed_at = none;
    created_at = issue.created_at;
  }

  -- The body of the transaction of `issuePasswordReset`: whether a mail is to be sent.
  unfoldable pub write_reset_token : Uuid → Issue → Action (Option Token)
  unfolding new_token
  write_reset_token user issue s =
      if any (λ u. u.id == user && may_reset u) s.users
        && not (any (is_recent user issue.now) s.reset_tokens)
      then (update_reset_tokens (is_open_token user) (consume_row issue.now)
            >> insert_reset_token (new_token user issue)
            >> pure (some issue.token))
          s
      else (ok none, s)

  -- `issuePasswordReset`. `seen` is the store when the account was looked up.
  unfoldable pub issue_password_reset : ℕ → Issue → Store → Option Value → Action (Option Token)
  unfolding write_reset_token
  issue_password_reset email issue seen refusal =
      elim (find (λ u. has_email email u && may_reset u) seen.users) [
        | none ↦ pure none
        | some user ↦ transaction refusal (write_reset_token user.id issue)
      ]

  -- The body of the transaction of `resetPassword`.
  unfoldable pub write_password : OneTimeToken → ℕ → Time → Action (Unit {0})
  write_password row password_hash now = do
    reads (λ s.
        throw_if (not (any (λ u. u.id == row.user_id && may_reset u) s.users)) invalid_reset_link)
    count ← update_reset_tokens (is_redeemable row.id now) (consume_row now)
    fail_if (count != 1) invalid_reset_link
    update_users (λ u. u.id == row.user_id) (λ u. record u { password_hash = some password_hash })
    update_reset_tokens (is_open_token row.user_id) (consume_row now)
    update_verification_tokens (is_open_token row.user_id) (consume_row now)
    update_sessions (λ a. a.user_id == row.user_id && is_none a.revoked_at) (revoke_row now)
    pure tt

  -- `resetPassword`. `seen` is the store when the token was read, and `password_hash` what `hash`
  -- returns.
  unfoldable pub reset_password : Token → ℕ → Time → Time → Store → Option Value → Action (Unit {0})
  unfolding write_password
  reset_password token password_hash now consumed_at seen refusal = do
    row ← reads (λ s. or_throw (find_reset_token (digest token) seen) invalid_reset_link)
    fail_if (not (is_valid_token now row)) invalid_reset_link
    transaction refusal (write_password row password_hash consumed_at)
