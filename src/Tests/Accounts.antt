-- ===== src/Tests/Accounts.antt =====
-- Runs of the sessions and of the one-time tokens.
use hktutor.Shared.{
  refl, [], ◌∷◌, none, some, ℕ, All, Bool, Option, arith, true, ◌+◌, ◌==◌, ◌≡◌, false,
  if◌then◌else◌, is_some, ◌<◌, count_where, leb, ◌≤◌, ◌≢◌, ◌++◌,
}
use hktutor.Database.Enums.{Role, AccountStatus}
use hktutor.Database.Results.{ok, throw}
use hktutor.Tests.Data.{alice, no_bookings}
use hktutor.Accounts.Sessions.{
  AuthResult, JwtPayload, Renewal, Token, refresh, create_session, rotate_session, with_user,
  find_session, is_refreshable,
}
use hktutor.Accounts.Access.{AccessPayload, AccessSession, verify_access_session}
use hktutor.Database.Schema.{OneTimeToken, Store, User, AuthSession, Uuid}
use hktutor.Accounts.Login.{Credentials, login, write_login}
use hktutor.Database.Exceptions.{Exception, invalid_refresh_token}
use hktutor.Accounts.Admitted.{IsUsable, IsEntitled, verify_access_session_iff}
use hktutor.Accounts.Passwords.{
  Issue, reset_password, find_reset_token, issue_password_reset, write_password, is_open_token,
}
use hktutor.Accounts.Emails.{verify_email, write_verification, resend_verification}
use hktutor.Accounts.Issues.{IsSingle, issue_password_reset-IsSingle}
use hktutor.Accounts.SignIn.{login-refresh}
use hktutor.Accounts.Ends.{
  reset_password-again, reset_password-locks, is_foreign_session, reset_password-ends,
}
use hktutor.Accounts.Rotation.{is_session, is_open_session, refresh-reused}
use hktutor.Accounts.Reset.{is_open_session_of}
use hktutor.Accounts.Verification.{verify_email-once}
use hktutor.Database.Queries.{find_user}

-- A digest, the verification of a token, and that of a password.
abbrev digest : Token → ℕ
digest k = k + 1000

abbrev alice_payload : JwtPayload
alice_payload = record { sub = 1; sid = 7 }

abbrev verify_token : Token → Option JwtPayload
verify_token k = if leb k 99 then some alice_payload else none

abbrev alice_access : AccessPayload
alice_access = record { claims = alice_payload; expires_at = 5000 }

abbrev verify_access : Token → Option AccessPayload
verify_access k = some alice_access

abbrev verify_password : ℕ → ℕ → Bool
verify_password hash password = hash == password + 3

abbrev known_alice : User
known_alice = record alice { email_verified_at = some 50; password_hash = some 13 }

abbrev known : Store
known = record no_bookings { users = known_alice ∷ [] }

abbrev signing_in : Credentials
signing_in = record { email = 101; password = 10 }

abbrev first_token : Renewal
first_token = record { token = 40; expires_at = 9000; now = 100 }

abbrev second_token : Renewal
second_token = record { token = 41; expires_at = 9900; now = 200 }

abbrev third_token : Renewal
third_token = record { token = 42; expires_at = 9950; now = 300 }

abbrev signed_in : AuthResult
signed_in = record {
  refresh_token = 40;
  session_id = 7;
  user_id = 1;
  email = 101;
  role = Role.student;
}

abbrev after_login : Store
after_login =
    (login digest verify_token verify_password signing_in 7 first_token known none known).1

login_run :
    login digest verify_token verify_password signing_in 7 first_token known none known
    ≡ (ok signed_in, after_login)
unfolding login write_login create_session
login_run = refl

login-refresh_example :
    (q : AuthResult) × ((refresh digest verify_token
        (some 40)
        150
        second_token
        after_login
        after_login).0
      ≡ ok q)
    × (q.refresh_token ≡ 41)
    × (q.session_id ≡ 7)
    × (q.user_id ≡ 1)
login-refresh_example =
    login-refresh digest verify_token verify_password signing_in 7 first_token second_token 150
      known known after_login none signed_in login_run refl (omega arith) refl (omega arith)
      (omega arith)

abbrev after_refresh : Store
after_refresh = (refresh digest verify_token (some 40) 150 second_token after_login after_login).1

abbrev renewed : AuthResult
renewed = record signed_in { refresh_token = 41 }

refresh_run :
    refresh digest verify_token (some 40) 150 second_token after_login after_login
    ≡ (ok renewed, after_refresh)
unfolding login write_login create_session refresh rotate_session
refresh_run = refl

one_session : count_where (is_session 7) after_login.sessions ≤ 1
unfolding login write_login create_session
one_session = omega arith

refresh-reused_example :
    ((e : Exception) × ((refresh digest verify_token
          (some 40)
          250
          third_token
          after_login
          after_refresh).0
        ≡ throw e))
    × ((a : AuthSession) (u : User)
        → with_user after_refresh (find_session 7 after_refresh) ≡ some (a, u)
        → is_refreshable alice_payload 250 a u ≡ true
        → let again =
            refresh digest verify_token (some 40) 250 third_token after_refresh after_refresh in
          (again.0 ≡ throw invalid_refresh_token)
          × (count_where (is_open_session digest verify_token 7) again.1.sessions ≡ 0))
refresh-reused_example =
    refresh-reused digest verify_token 40 150 250 second_token third_token after_login after_login
      after_login after_refresh alice_payload renewed refresh_run refl one_session
      (λ e. ground arith)

abbrev admission : AccessSession
admission = record {
  user_id = 1;
  email = 101;
  role = Role.student;
  session_id = 7;
  expires_at = 5000;
}

admitted_run : verify_access_session verify_access 60 true false 150 after_login ≡ ok admission
unfolding verify_access_session login write_login create_session
admitted_run = refl

verify_access_session_iff_example :
    ((r : AccessSession)
      → verify_access_session verify_access 60 true false 150 after_login ≡ ok r
      → (session : AuthSession) × (user : User) × IsUsable alice_payload 150 after_login session
          user
        × IsEntitled true false user
        × (r.user_id ≡ user.id)
        × (r.session_id ≡ 7)
        × (r.expires_at ≤ 5000)
        × (r.expires_at ≤ session.expires_at))
    × ((session : AuthSession) (user : User)
        → IsUsable alice_payload 150 after_login session user
        → IsEntitled true false user
        → (r : AccessSession) × (verify_access_session verify_access 60 true false 150 after_login
            ≡ ok r))
verify_access_session_iff_example =
    verify_access_session_iff verify_access 60 true false 150 after_login alice_access refl

abbrev reset_row : OneTimeToken
reset_row = record {
  id = 60;
  user_id = 1;
  token_hash = 1050;
  expires_at = 4000;
  consumed_at = none;
  created_at = 100;
}

abbrev resetting : Store
resetting = record after_login { reset_tokens = reset_row ∷ [] }

abbrev after_reset : Store
after_reset = (reset_password digest 50 77 300 310 resetting none resetting).1

reset_run : reset_password digest 50 77 300 310 resetting none resetting ≡ (ok tt, after_reset)
unfolding reset_password write_password login write_login create_session
reset_run = refl

reset_password-ends_example :
    (row : OneTimeToken) × (find_reset_token 1050 resetting ≡ some row)
    × (row.consumed_at ≡ none)
    × (300 < row.expires_at)
    × All (λ u. u.id ≡ row.user_id → u.password_hash ≡ some 77) after_reset.users
    × (count_where (is_open_token row.user_id) after_reset.reset_tokens ≡ 0)
    × (count_where (is_open_token row.user_id) after_reset.verification_tokens ≡ 0)
    × (count_where (is_open_session_of row.user_id) after_reset.sessions ≡ 0)
    × ((other : Uuid)
        → other ≢ row.user_id
        → count_where (is_open_session_of other) after_reset.sessions
          ≡ count_where (is_open_session_of other) resetting.sessions)
reset_password-ends_example =
    reset_password-ends digest 50 77 300 310 resetting resetting after_reset none reset_run

reset_password-again_example :
    (e : Exception) × (reset_password digest 50 78 320 330 resetting none after_reset
      ≡ (throw e, after_reset))
reset_password-again_example =
    reset_password-again digest 50 77 78 300 320 310 330 resetting resetting resetting after_reset
      none none reset_row reset_row reset_run refl (omega arith) refl refl

own_session : count_where (is_foreign_session 7 1) resetting.sessions ≡ 0
unfolding login write_login create_session
own_session = refl

reset_password-locks_example :
    ((e : Exception) × ((refresh digest verify_token
          (some 40)
          320
          third_token
          resetting
          after_reset).0
        ≡ throw e))
    × ((e : Exception) × (verify_access_session verify_access 60 false true 320 after_reset
          ≡ throw e))
reset_password-locks_example =
    reset_password-locks digest verify_token verify_access 50 40 60 77 300 320 310 resetting
      resetting resetting after_reset none reset_row alice_payload alice_access third_token false
      true reset_run refl own_session refl refl refl

abbrev new_alice : User
new_alice = record alice { password_hash = some 13 }

abbrev registered : Store
registered = record no_bookings { users = new_alice ∷ []; verification_tokens = reset_row ∷ [] }

abbrev after_verification : Store
after_verification =
    (verify_email digest verify_token 50 200 210 7 first_token registered none registered).1

verification_run :
    verify_email digest verify_token 50 200 210 7 first_token registered none registered
    ≡ (ok signed_in, after_verification)
unfolding verify_email write_verification create_session
verification_run = refl

verify_email-once_example :
    ((u : User) × (find_user 1 registered ≡ some u)
      × (u.deleted_at ≡ none)
      × (u.account_status ≡ AccountStatus.active))
    × All (λ u. u.id ≡ 1 → is_some u.email_verified_at ≡ true) after_verification.users
    × (after_verification.sessions
        ≡ registered.sessions
          ++ record {
            id = 7;
            user_id = 1;
            refresh_token_hash = 1040;
            expires_at = 9000;
            revoked_at = none;
            last_used_at = none;
          }
            ∷ [])
    × (signed_in.user_id ≡ 1)
    × (signed_in.session_id ≡ 7)
    × (signed_in.refresh_token ≡ 40)
    × ((e : Exception) × ((verify_email digest verify_token 50 220 230 8 second_token registered
            none after_verification).0
          ≡ throw e))
verify_email-once_example =
    verify_email-once digest verify_token 50 200 220 210 230 7 8 first_token second_token registered
      registered registered after_verification none none signed_in reset_row reset_row
      verification_run refl (omega arith) (omega arith) refl refl

abbrev asking : Issue
asking = record { token = 51; id = 61; now = 70000; expires_at = 99000; created_at = 70000 }

reset_tokens-IsSingle : IsSingle resetting.reset_tokens
reset_tokens-IsSingle user = ground arith

verification_tokens-IsSingle : IsSingle resetting.verification_tokens
unfolding login write_login create_session
verification_tokens-IsSingle user = omega arith

issue_password_reset-IsSingle_example :
    IsSingle (issue_password_reset digest 101 asking resetting none resetting).1.reset_tokens
    × IsSingle
        (resend_verification digest 101 asking resetting none resetting).1.verification_tokens
issue_password_reset-IsSingle_example =
    issue_password_reset-IsSingle digest 101 asking resetting resetting none reset_tokens-IsSingle
      verification_tokens-IsSingle
