-- ===== src/Accounts/Sessions.antt =====
-- auth.service.ts: `createSession`, `rotateSession`, `refresh` and `logout`; access-session.ts.
use hktutor.Shared.{
  none, some, ℕ, Option, Bool, find, is_none, ◌&&◌, ◌==◌, is_some, ltb, ◌!=◌, not, if◌then◌else◌,
}
use hktutor.Database.Enums.{Role, is_account_active}
use hktutor.Database.Results.{throw, or_throw}
use hktutor.Database.Actions.{
  ◌>>=◌, ◌>>◌, Action, insert_session, pure, reads, update_sessions, fail_if,
}
use hktutor.Database.Schema.{Store, Time, User, Uuid, AuthSession}
use hktutor.Database.Queries.{find_user}
use hktutor.Database.Values.{record_not_found}
use hktutor.Database.Exceptions.{missing_refresh_token, thrown, invalid_refresh_token}

-- A signed token, a random token and a password.
abbrev pub Token : Type 0
Token = ℕ

-- `JwtPayload`
pub record JwtPayload : Type 0 where
  pub sub : Uuid
  pub sid : Uuid

-- `AuthResult`: the access token is signed from the user, the session and the role.
pub record AuthResult : Type 0 where
  pub refresh_token : Token
  pub session_id : Uuid
  pub user_id : Uuid
  pub email : ℕ
  pub role : Role

-- `accountStatus: ACTIVE, deletedAt: null`
abbrev pub is_live : User → Bool
is_live u = is_none u.deleted_at && is_account_active u.account_status

-- A live account whose email is verified.
abbrev pub is_verified_live : User → Bool
is_verified_live u = is_live u && is_some u.email_verified_at

-- A session with its user, whom the foreign key of `userId` keeps.
abbrev pub with_user : Store → Option AuthSession → Option (AuthSession × User)
with_user s none = none
with_user s (some a) = elim (find_user a.user_id s) [ none ↦ none | some u ↦ some (a, u) ]

abbrev pub find_session : Uuid → Store → Option AuthSession
find_session i s = find (λ a. a.id == i) s.sessions

-- What `refresh` asks of a session and its user.
abbrev pub is_refreshable : JwtPayload → Time → AuthSession → User → Bool
is_refreshable payload now a u =
    a.user_id == payload.sub && is_none a.revoked_at && ltb now a.expires_at && is_verified_live u

-- `where` of `rotateSession`
abbrev pub is_rotatable : JwtPayload → ℕ → Time → AuthSession → Bool
is_rotatable payload previous_hash now a =
    a.id == payload.sid
    && a.refresh_token_hash == previous_hash
    && is_none a.revoked_at
    && ltb now a.expires_at

abbrev pub rotate_row : ℕ → Time → Time → AuthSession → AuthSession
rotate_row hash expires_at now a = record a {
  refresh_token_hash = hash;
  expires_at = expires_at;
  last_used_at = some now;
}

abbrev pub revoke_row : Time → AuthSession → AuthSession
revoke_row now a = record a { revoked_at = some now }

-- The token that `signRefreshToken` returns, and the `refreshExpiry` and the clock as they are
-- then.
pub record Renewal : Type 0 where
  pub token : Token
  pub expires_at : Time
  pub now : Time

-- The digest is that of SHA-256, and `verifyRefreshToken` that of the JWT library.
module _ (digest : Token → ℕ) (verify_refresh_token : Token → Option JwtPayload) where
  -- `createSession`, under a new id
  unfoldable pub create_session : User → Uuid → Renewal → Action AuthResult
  create_session user id renewal = do
    insert_session (record {
      id = id;
      user_id = user.id;
      refresh_token_hash = digest renewal.token;
      expires_at = renewal.expires_at;
      revoked_at = none;
      last_used_at = none;
    })
    pure (record {
      refresh_token = renewal.token;
      session_id = id;
      user_id = user.id;
      email = user.email;
      role = user.role;
    })

  -- `rotateSession`
  unfoldable pub rotate_session : JwtPayload → User → ℕ → Renewal → Action AuthResult
  rotate_session payload user previous_hash renewal = do
    count ←
        update_sessions (is_rotatable payload previous_hash renewal.now)
          (rotate_row (digest renewal.token) renewal.expires_at renewal.now)
    fail_if (count != 1) invalid_refresh_token
    pure (record {
      refresh_token = renewal.token;
      session_id = payload.sid;
      user_id = user.id;
      email = user.email;
      role = user.role;
    })

  -- The revocation of a session whose token was presented before.
  unfoldable pub revoke_reused : AuthSession → Time → Action AuthResult
  revoke_reused session now = do
    count ← update_sessions (λ a. a.id == session.id) (revoke_row now)
    fail_if (count == 0) (thrown record_not_found)
    reads (λ s. throw invalid_refresh_token)

  -- `refresh`. `seen` is the store when the session was read.
  unfoldable pub refresh : Option Token → Time → Renewal → Store → Action AuthResult
  unfolding rotate_session revoke_reused
  refresh token now renewal seen = do
    presented ← reads (λ s. or_throw token missing_refresh_token)
    payload ← reads (λ s. or_throw (verify_refresh_token presented) invalid_refresh_token)
    found ←
        reads (λ s. or_throw (with_user seen (find_session payload.sid seen)) invalid_refresh_token)
    fail_if (not (is_refreshable payload now found.0 found.1)) invalid_refresh_token
    (if found.0.refresh_token_hash == digest presented
        then rotate_session payload found.1 found.0.refresh_token_hash renewal
        else revoke_reused found.0 now)

  -- `where` of `logout`
  abbrev pub is_own_session : JwtPayload → AuthSession → Bool
  is_own_session payload a = a.id == payload.sid && a.user_id == payload.sub && is_none a.revoked_at

  -- `logout`
  unfoldable pub logout : Option Token → Time → Action (Unit {0})
  logout none now = pure tt
  logout (some token) now = elim (verify_refresh_token token) [
    | none ↦ pure tt
    | some payload ↦ update_sessions (is_own_session payload) (revoke_row now) >> pure tt
  ]
