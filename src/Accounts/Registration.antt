-- ===== src/Accounts/Registration.antt =====
-- auth.service.ts: `register` and `acceptPrivacyNotice`.
use hktutor.Shared.{none, some, ℕ, Bool, String, Option, if◌then◌else◌, not, is_some, find, ◌==◌}
use hktutor.Database.Enums.{AccountStatus, Role}
use hktutor.Database.Results.{Result, ok, throw}
use hktutor.Database.Exceptions.{thrown, consent_missing, Exception}
use hktutor.Database.Actions.{
  ◌>>=◌, ◌>>◌, Action, fail_if, update_users, pure, transaction, insert_user,
  insert_verification_token,
}
use hktutor.Database.Schema.{Time, Uuid, User, Store}
use hktutor.Database.Values.{has_code, Value, record_not_found}
use hktutor.Accounts.Sessions.{Token}
use hktutor.Accounts.Passwords.{new_token, Issue, has_email}

-- `RegisterDto`, with the hash of its password.
pub record RegisterInput : Type 0 where
  pub email : ℕ
  pub password_hash : ℕ
  pub role : Role
  pub consent : Bool
  pub policy_version : String

abbrev pub new_user : RegisterInput → Uuid → Time → User
new_user input id now = record {
  id = id;
  role = input.role;
  account_status = AccountStatus.active;
  email = input.email;
  password_hash = some input.password_hash;
  email_verified_at = none;
  consent_accepted_at = some now;
  policy_version = some input.policy_version;
  deleted_at = none;
}

-- The `catch` of `register`: nothing is mailed where the email is taken.
unfoldable pub map_taken : Exception → Result (Option Token)
unfolding has_code
map_taken (thrown v) = if has_code "P2002" v then ok none else throw (thrown v)
map_taken e = throw e

unfoldable pub catch_taken : Action (Option Token) → Action (Option Token)
unfolding map_taken
catch_taken m s =
    let (r, t) = m s in elim r [ ok token ↦ (ok token, t) | throw e ↦ (map_taken e, t) ]

-- The result of `acceptPrivacyNotice`.
pub record AcceptedNotice : Type 0 where
  pub consent_accepted_at : Time
  pub policy_version : String

-- `acceptPrivacyNotice`
unfoldable pub accept_privacy_notice : Uuid → Bool → String → Time → Action AcceptedNotice
accept_privacy_notice user consent version now = do
  fail_if (not consent) consent_missing
  count ←
      update_users (λ u. u.id == user)
        (λ u. record u { consent_accepted_at = some now; policy_version = some version })
  fail_if (count == 0) (thrown record_not_found)
  pure (record { consent_accepted_at = now; policy_version = version })

module _ (digest : Token → ℕ) where
  -- `register`: the token to mail, if any. `seen` is the store when the email was looked up; a unique key
  -- of the database that the email meets is a reason for it to refuse the transaction.
  unfoldable pub register :
      RegisterInput → Uuid → Issue → Store → Option Value → Action (Option Token)
  unfolding catch_taken new_token
  register input id issue seen refusal =
      fail_if (not input.consent) consent_missing
      >> (if is_some (find (has_email input.email) seen.users)
          then pure none
          else catch_taken (
              transaction refusal (
                insert_user (new_user input id issue.now)
                >> insert_verification_token (new_token digest id issue)
                >> pure (some issue.token))))
