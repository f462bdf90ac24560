-- ===== src/Accounts/Access.antt =====
-- access-session.ts: `verifyAccessSession`.
use hktutor.Shared.{
  ℕ, if◌then◌else◌, Bool, Option, leb, is_some, ◌&&◌, ◌==◌, ◌||◌, is_none, ltb, not,
}
use hktutor.Database.Results.{Result, ok, ◌>>=◌, ◌>>◌, or_throw, throw_if}
use hktutor.Accounts.Sessions.{JwtPayload, Token, with_user, find_session, is_verified_live}
use hktutor.Database.Schema.{User, Uuid, Time, AuthSession, Store}
use hktutor.Database.Enums.{Role, is_student, is_tutor}
use hktutor.Reschedule.Access.{is_current_policy}
use hktutor.Database.Exceptions.{invalid_access_token, chat_denied, consent_required}

-- A payload of an access token with the time `exp * 1000`.
pub record AccessPayload : Type 0 where
  pub claims : JwtPayload
  pub expires_at : Time

pub record AccessSession : Type 0 where
  pub user_id : Uuid
  pub email : ℕ
  pub role : Role
  pub session_id : Uuid
  pub expires_at : Time

abbrev pub is_chat_role : Role → Bool
is_chat_role r = is_student r || is_tutor r

-- `consentAcceptedAt` and the current `policyVersion`
abbrev pub has_current_consent : User → Bool
has_current_consent u = is_some u.consent_accepted_at && is_current_policy u.policy_version

abbrev pub min : ℕ → ℕ → ℕ
min a b = if leb a b then a else b

-- `session.userId !== payload.sub || session.revokedAt || session.expiresAt <= new Date()`
abbrev pub is_open_for : JwtPayload → Time → AuthSession → Bool
is_open_for claims now a = a.user_id == claims.sub && is_none a.revoked_at && ltb now a.expires_at

-- `verifyAccessToken` is the JWT library's.
module _ (verify_access_token : Token → Option AccessPayload) where
  -- `verifyAccessSession`
  unfoldable pub verify_access_session : Token → Bool → Bool → Time → Store → Result AccessSession
  verify_access_session token chat require_consent now s = do
    payload ← or_throw (verify_access_token token) invalid_access_token
    found ← or_throw (with_user s (find_session payload.claims.sid s)) invalid_access_token
    throw_if (not (is_open_for payload.claims now found.0)) invalid_access_token
    throw_if (not (is_verified_live found.1)) (if chat then chat_denied else invalid_access_token)
    throw_if
        (chat && not (is_chat_role found.1.role)
          || (chat || require_consent) && not (has_current_consent found.1))
        (if chat then chat_denied else consent_required)
    ok (record {
      user_id = found.1.id;
      email = found.1.email;
      role = found.1.role;
      session_id = payload.claims.sid;
      expires_at = min payload.expires_at found.0.expires_at;
    })
