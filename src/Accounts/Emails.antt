-- ===== src/Accounts/Emails.antt =====
-- auth.service.ts: `verifyEmail` and `resendVerification`.
use hktutor.Shared.{none, some, ℕ, Option, find, ◌==◌, if◌then◌else◌, any, ◌&&◌, is_none, not, ◌!=◌}
use hktutor.Database.Results.{ok, or_throw}
use hktutor.Database.Actions.{
  ◌>>=◌, ◌>>◌, Action, pure, reads, transaction, fail_if, update_verification_tokens,
  insert_verification_token, update_users,
}
use hktutor.Database.Schema.{Store, OneTimeToken, Time, User, Uuid}
use hktutor.Accounts.Sessions.{Token, JwtPayload, create_session, Renewal, AuthResult, is_live}
use hktutor.Accounts.Passwords.{
  Issue, new_token, has_email, is_redeemable, consume_row, is_recent, is_valid_token, is_open_token,
}
use hktutor.Database.Queries.{find_user}
use hktutor.Database.Values.{Value}
use hktutor.Database.Exceptions.{invalid_verification_link}

abbrev pub find_verification_token : ℕ → Store → Option OneTimeToken
find_verification_token hash s = find (λ k. k.token_hash == hash) s.verification_tokens

-- A token with its user, whom the foreign key of `userId` keeps.
abbrev pub token_user : Store → Option OneTimeToken → Option (OneTimeToken × User)
token_user s none = none
token_user s (some k) = elim (find_user k.user_id s) [ none ↦ none | some u ↦ some (k, u) ]

-- `user.emailVerifiedAt ?? consumedAt`
abbrev pub or_now : Option Time → Time → Option Time
or_now none now = some now
or_now (some t) now = some t

module _ (digest : Token → ℕ) (verify_refresh_token : Token → Option JwtPayload) where
  -- The body of the transaction of `verifyEmail`.
  unfoldable pub write_verification : OneTimeToken → Time → Uuid → Renewal → Action AuthResult
  unfolding create_session
  write_verification row now session_id renewal = do
    user ← reads (λ s.
        or_throw (find (λ u. u.id == row.user_id && is_live u) s.users) invalid_verification_link)
    count ← update_verification_tokens (is_redeemable row.id now) (consume_row now)
    fail_if (count != 1) invalid_verification_link
    update_users (λ u. u.id == user.id)
        (λ u. record u { email_verified_at = or_now user.email_verified_at now })
    create_session digest verify_refresh_token user session_id renewal

  -- `verifyEmail`. `seen` is the store when the token was read.
  unfoldable pub verify_email :
      Token → Time → Time → Uuid → Renewal → Store → Option Value → Action AuthResult
  unfolding write_verification
  verify_email token now consumed_at session_id renewal seen refusal = do
    found ← reads (λ s.
        or_throw (token_user seen (find_verification_token (digest token) seen))
          invalid_verification_link)
    fail_if (not (is_valid_token now found.0 && is_live found.1)) invalid_verification_link
    transaction refusal (write_verification found.0 consumed_at session_id renewal)

module _ (digest : Token → ℕ) where
  -- The body of the transaction of `resendVerification`: whether a mail is to be sent.
  unfoldable pub write_verification_token : Uuid → Issue → Action (Option Token)
  unfolding new_token
  write_verification_token user issue s =
      if any (λ u. u.id == user && is_live u && is_none u.email_verified_at) s.users
        && not (any (is_recent user issue.now) s.verification_tokens)
      then (update_verification_tokens (is_open_token user) (consume_row issue.now)
            >> insert_verification_token (new_token digest user issue)
            >> pure (some issue.token))
          s
      else (ok none, s)

  -- `resendVerification`. `seen` is the store when the account was looked up.
  unfoldable pub resend_verification : ℕ → Issue → Store → Option Value → Action (Option Token)
  unfolding write_verification_token
  resend_verification email issue seen refusal = elim (find (has_email email) seen.users) [
    | none ↦ pure none
    | some user ↦ transaction refusal (write_verification_token user.id issue)
  ]
