-- ===== src/Accounts/Reset.antt =====
-- What `resetPassword` of auth.service.ts leaves.
use hktutor.Shared.{
  some, ℕ, inl, inr, Bool, ◌==◌, Option, update_where, ◌&&◌, is_none, ◌≡◌, Option-cases, arith,
  true, any, count_where,
}
use hktutor.Database.Results.{ok, throw, Result-cases}
use hktutor.Database.Schema.{OneTimeToken, Uuid, AuthSession, Time, Store}
use hktutor.Accounts.Sessions.{Token, revoke_row}
use hktutor.Accounts.Passwords.{
  reset_password, write_password, find_reset_token, is_open_token, consume_row, is_valid_token,
  is_redeemable, may_reset,
}
use hktutor.Database.Values.{Value}
use hktutor.Database.Exceptions.{Exception}

abbrev pub is_open_session_of : Uuid → AuthSession → Bool
is_open_session_of user a = a.user_id == user && is_none a.revoked_at

abbrev pub is_token : Uuid → OneTimeToken → Bool
is_token i k = k.id == i

-- The tables that a reset leaves.
abbrev pub with_password : OneTimeToken → ℕ → Time → Store → Store
with_password row hash now s = record s {
  users =
      update_where (λ u. u.id == row.user_id) (λ u. record u { password_hash = some hash }) s.users;
  reset_tokens =
      update_where (is_open_token row.user_id) (consume_row now)
        (update_where (is_redeemable row.id now) (consume_row now) s.reset_tokens);
  verification_tokens =
      update_where (is_open_token row.user_id) (consume_row now) s.verification_tokens;
  sessions = update_where (is_open_session_of row.user_id) (revoke_row now) s.sessions;
}

module _ (digest : Token → ℕ) where
  pub record IsReset (token : Token) (hash : ℕ) (now consumed_at : Time) (seen s t : Store)
      : Type 0 where
    pub row : OneTimeToken
    pub found : find_reset_token (digest token) seen ≡ some row
    pub valid : is_valid_token now row ≡ true
    pub user : any (λ u. u.id == row.user_id && may_reset u) s.users ≡ true
    pub single : count_where (is_redeemable row.id consumed_at) s.reset_tokens ≡ 1
    pub left : t ≡ with_password row hash consumed_at s

  pub reset_password-ok :
      (token : Token) (hash : ℕ) (now consumed_at : Time) (seen s t : Store)
      (refusal : Option Value)
      → reset_password digest token hash now consumed_at seen refusal s ≡ (ok tt, t)
      → IsReset token hash now consumed_at seen s t
  unfolding reset_password write_password
  reset_password-ok token hash now consumed_at seen s t refusal h =
      elim (Option-cases (find_reset_token (digest token) seen)) [
        | inl missing ↦ ground arith
        | inr (row, found) ↦
            let valid : is_valid_token now row ≡ true = ground arith in
            let user : any (λ u. u.id == row.user_id && may_reset u) s.users ≡ true =
              ground arith in
            let single : count_where (is_redeemable row.id consumed_at) s.reset_tokens ≡ 1 =
              ground arith in
            record {
              row = row;
              found = found;
              valid = valid;
              user = user;
              single = single;
              left = ground arith;
            }
      ]

  -- A reset that is refused changes nothing.
  pub reset_password-throw :
      (token : Token) (hash : ℕ) (now consumed_at : Time) (seen s t : Store)
      (refusal : Option Value) (e : Exception)
      → reset_password digest token hash now consumed_at seen refusal s ≡ (throw e, t)
      → t ≡ s
  unfolding reset_password
  reset_password-throw token hash now consumed_at seen s t refusal e h =
      elim (Option-cases (find_reset_token (digest token) seen)) [
        | inl missing ↦ ground arith
        | inr (row, found) ↦ elim (Result-cases (write_password digest row hash consumed_at s).0) [
          | inl (u, done) ↦ ground arith
          | inr (f, failed) ↦ ground arith
        ]
      ]
