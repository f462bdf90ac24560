-- ===== src/Accounts/Admitted.antt =====
-- Whom `verifyAccessSession` of access-session.ts admits.
use text.Mathlib.TextEquality.{eq_iff}
use text.Mathlib.TextPositions.{eq_refl}
use hktutor.Shared.{
  refl, none, some, inl, inr, Option, Bool, ◌≡◌, ◌||◌, Option-cases, true, arith, String, ◌<◌, ◌≤◌,
  ◌⊎◌, ◌≢◌, is_some, ◌&&◌, not, false, ap, ℕ, ==_self, ◌∙◌,
}
use hktutor.Database.Enums.{Role, AccountStatus, is_account_active}
use hktutor.Accounts.Verification.{is_account_active-eq}
use hktutor.Database.Results.{ok}
use hktutor.Accounts.Sessions.{JwtPayload, Token, find_session, with_user, is_verified_live}
use hktutor.Database.Schema.{Store, Time, AuthSession, User}
use hktutor.Accounts.Access.{
  AccessPayload, AccessSession, verify_access_session, is_open_for, has_current_consent,
  is_chat_role, min,
}
use hktutor.Database.Queries.{find_user}
use hktutor.Accounts.Rotation.{with_user-session, with_user-found}
use hktutor.Reschedule.Access.{is_current_policy, current_policy_version}

-- A session that may be used, of the user that a token names, and its account.
pub record IsUsable (claims : JwtPayload) (now : Time) (s : Store) (session : AuthSession)
    (user : User) : Type 0 where
  pub found : find_session claims.sid s ≡ some session
  pub owner : find_user session.user_id s ≡ some user
  pub named : session.user_id ≡ claims.sub
  pub unrevoked : session.revoked_at ≡ none
  pub unexpired : now < session.expires_at
  pub undeleted : user.deleted_at ≡ none
  pub active : user.account_status ≡ AccountStatus.active
  pub verified : user.email_verified_at ≢ none

-- What an account must have for chat, or where a route asks for consent.
pub record IsEntitled (chat require_consent : Bool) (user : User) : Type 0 where
  pub chat_role : chat ≡ true → (user.role ≡ Role.student) ⊎ (user.role ≡ Role.tutor)
  pub consent : (chat ≡ true) ⊎ (require_consent ≡ true) → user.consent_accepted_at ≢ none
  pub policy :
      (chat ≡ true) ⊎ (require_consent ≡ true) → user.policy_version ≡ some current_policy_version

pub chat_role-eq : (r : Role) → is_chat_role r ≡ true → (r ≡ Role.student) ⊎ (r ≡ Role.tutor)
chat_role-eq Role.student h = inl refl
chat_role-eq Role.tutor h = inr refl
chat_role-eq Role.admin h = cc

pub is_current_policy-eq :
    (v : Option String) → is_current_policy v ≡ true → v ≡ some current_policy_version
is_current_policy-eq none h = cc
is_current_policy-eq (some v) h = ap some ((eq_iff v current_policy_version).0 h)

with_user-user :
    (s : Store) (o : Option AuthSession) {a : AuthSession} {u : User}
    → with_user s o ≡ some (a, u)
    → find_user a.user_id s ≡ some u
with_user-user s none h = cc
with_user-user s (some b) {a} {u} h = elim (Option-cases (find_user b.user_id s)) [
  | inl missing ↦ ground arith
  | inr (v, found) ↦ ground arith
]

min-le : (a b : ℕ) → (min a b ≤ a) × (min a b ≤ b)
min-le a b = (ground arith, ground arith)

-- The code's tests of a session and its account, and what they mean.
usable :
    (claims : JwtPayload) (now : Time) (s : Store) (a : AuthSession) (u : User)
    → with_user s (find_session claims.sid s) ≡ some (a, u)
    → is_open_for claims now a ≡ true
    → is_verified_live u ≡ true
    → IsUsable claims now s a u
usable claims now s a u found valid live = record {
  found = with_user-session s (find_session claims.sid s) found;
  owner = with_user-user s (find_session claims.sid s) found;
  named = ground arith;
  unrevoked = ground arith;
  unexpired = ground arith;
  undeleted = ground arith;
  active = is_account_active-eq u.account_status (ground arith);
  verified = λ unset. ground arith;
}

entitled :
    (chat require_consent : Bool) (u : User)
    → (chat && not (is_chat_role u.role)
        || (chat || require_consent) && not (has_current_consent u))
      ≡ false
    → IsEntitled chat require_consent u
entitled chat require_consent u h = record {
  chat_role = λ chatting. chat_role-eq u.role (ground arith);
  consent = λ asked. λ unset. ground arith;
  policy = λ asked. is_current_policy-eq u.policy_version (ground arith);
}

tests :
    (claims : JwtPayload) (now : Time) (s : Store) (a : AuthSession) (u : User)
    → IsUsable claims now s a u
    → (is_open_for claims now a ≡ true) × (is_verified_live u ≡ true)
tests claims now s a u fit =
    let named = fit.named in
    let unrevoked = fit.unrevoked in
    let unexpired = fit.unexpired in
    let undeleted = fit.undeleted in
    let active : is_account_active u.account_status ≡ true = ap is_account_active fit.active in
    let confirmed : is_some u.email_verified_at ≡ true = elim (Option-cases u.email_verified_at) [
      | inl unset ↦ absurd (fit.verified unset)
      | inr (at, set) ↦ ap is_some set
    ] in
    (ground (arith, ==_self claims.sub), ground arith)

consented :
    (u : User)
    → u.consent_accepted_at ≢ none
    → u.policy_version ≡ some current_policy_version
    → has_current_consent u ≡ true
consented u accepted current =
    let at : is_some u.consent_accepted_at ≡ true = elim (Option-cases u.consent_accepted_at) [
      | inl unset ↦ absurd (accepted unset)
      | inr (t, set) ↦ ap is_some set
    ] in
    let version : is_current_policy u.policy_version ≡ true =
      ap is_current_policy current ∙ eq_refl current_policy_version in
    ground (arith, at, version)

chat_role : (r : Role) → (r ≡ Role.student) ⊎ (r ≡ Role.tutor) → is_chat_role r ≡ true
chat_role r (inl student) = ap is_chat_role student
chat_role r (inr tutor) = ap is_chat_role tutor

passes :
    (chat require_consent : Bool) (u : User)
    → IsEntitled chat require_consent u
    → (chat && not (is_chat_role u.role)
        || (chat || require_consent) && not (has_current_consent u))
      ≡ false
passes true require_consent u fair =
    let role = chat_role u.role (fair.chat_role refl) in
    let consent = consented u (fair.consent (inl refl)) (fair.policy (inl refl)) in
    ground (arith, role, consent)
passes false true u fair =
    let consent = consented u (fair.consent (inr refl)) (fair.policy (inr refl)) in
    ground (arith, consent)
passes false false u fair = refl

module _ (verify_access_token : Token → Option AccessPayload) where
  -- The guards that an admission has passed, as the code tests them.
  guards :
      (token : Token) (chat require_consent : Bool) (now : Time) (s : Store)
      (access : AccessPayload) (r : AccessSession) (a : AuthSession) (u : User)
      → verify_access_token token ≡ some access
      → with_user s (find_session access.claims.sid s) ≡ some (a, u)
      → verify_access_session verify_access_token token chat require_consent now s ≡ ok r
      → (is_open_for access.claims now a ≡ true)
        × (is_verified_live u ≡ true)
        × ((chat && not (is_chat_role u.role)
              || (chat || require_consent) && not (has_current_consent u))
            ≡ false)
        × (r ≡ record {
          user_id = u.id;
          email = u.email;
          role = u.role;
          session_id = access.claims.sid;
          expires_at = min access.expires_at a.expires_at;
        })
  unfolding verify_access_session
  guards token chat require_consent now s access r a u verified found h =
      (ground arith, ground arith, ground arith, ground arith)

  missing_session :
      (token : Token) (chat require_consent : Bool) (now : Time) (s : Store)
      (access : AccessPayload) (r : AccessSession)
      → verify_access_token token ≡ some access
      → with_user s (find_session access.claims.sid s) ≡ none
      → verify_access_session verify_access_token token chat require_consent now s ≢ ok r
  unfolding verify_access_session
  missing_session token chat require_consent now s access r verified missing h = ground arith

  admitted :
      (token : Token) (chat require_consent : Bool) (now : Time) (s : Store)
      (access : AccessPayload) (a : AuthSession) (u : User)
      → verify_access_token token ≡ some access
      → with_user s (find_session access.claims.sid s) ≡ some (a, u)
      → is_open_for access.claims now a ≡ true
      → is_verified_live u ≡ true
      → (chat && not (is_chat_role u.role)
          || (chat || require_consent) && not (has_current_consent u))
        ≡ false
      → verify_access_session verify_access_token token chat require_consent now s
        ≡ ok (record {
          user_id = u.id;
          email = u.email;
          role = u.role;
          session_id = access.claims.sid;
          expires_at = min access.expires_at a.expires_at;
        })
  unfolding verify_access_session
  admitted token chat require_consent now s access a u verified found valid live passed =
      ground arith

  pub verify_access_session-ok :
      (token : Token) (chat require_consent : Bool) (now : Time) (s : Store)
      (access : AccessPayload) (r : AccessSession)
      → verify_access_token token ≡ some access
      → verify_access_session verify_access_token token chat require_consent now s ≡ ok r
      → (session : AuthSession) × (user : User) × IsUsable access.claims now s session user
        × IsEntitled chat require_consent user
        × (r.user_id ≡ user.id)
        × (r.session_id ≡ access.claims.sid)
        × (r.expires_at ≤ access.expires_at)
        × (r.expires_at ≤ session.expires_at)
  verify_access_session-ok token chat require_consent now s access r verified h =
      elim (Option-cases (with_user s (find_session access.claims.sid s))) [
        | inl missing ↦
            absurd (missing_session token chat require_consent now s access r verified missing h)
        | inr ((a, u), found) ↦
            let (valid, live, passed, answer) =
              guards token chat require_consent now s access r a u verified found h in
            let (below, below') = min-le access.expires_at a.expires_at in
            (
              a,
              u,
              usable access.claims now s a u found valid live,
              entitled chat require_consent u passed,
              ap (λ q. q.user_id) answer,
              ap (λ q. q.session_id) answer,
              rw (ap (λ q. q.expires_at) answer) below,
              rw (ap (λ q. q.expires_at) answer) below',
            )
      ]

  -- Who is admitted by a verified access token: exactly who has a session that is stored under the
  -- id and for the user that the token names, neither revoked nor expired, of an account that is
  -- active, not deleted and whose email is verified; in chat the role is that of a student or a
  -- tutor, and in chat or where consent is asked for, the account has accepted the current notice.
  -- What is admitted expires no later than the token and than the session.
  pub verify_access_session_iff :
      (token : Token) (chat require_consent : Bool) (now : Time) (s : Store)
      (access : AccessPayload)
      → verify_access_token token ≡ some access
      → ((r : AccessSession)
          → verify_access_session verify_access_token token chat require_consent now s ≡ ok r
          → (session : AuthSession) × (user : User) × IsUsable access.claims now s session user
            × IsEntitled chat require_consent user
            × (r.user_id ≡ user.id)
            × (r.session_id ≡ access.claims.sid)
            × (r.expires_at ≤ access.expires_at)
            × (r.expires_at ≤ session.expires_at))
        × ((session : AuthSession) (user : User)
            → IsUsable access.claims now s session user
            → IsEntitled chat require_consent user
            → (r : AccessSession) × (verify_access_session verify_access_token token chat
                  require_consent now s
                ≡ ok r))
  verify_access_session_iff token chat require_consent now s access verified = (
    λ r h. verify_access_session-ok token chat require_consent now s access r verified h,
    λ a u fit fair. (
      record {
        user_id = u.id;
        email = u.email;
        role = u.role;
        session_id = access.claims.sid;
        expires_at = min access.expires_at a.expires_at;
      },
      admitted token chat require_consent now s access a u verified
          (with_user-found s access.claims.sid a u fit.found fit.owner)
          (tests access.claims now s a u fit).0 (tests access.claims now s a u fit).1
          (passes chat require_consent u fair),
    ),
  )
