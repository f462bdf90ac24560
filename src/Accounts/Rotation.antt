-- ===== src/Accounts/Rotation.antt =====
-- Reuse of a refresh token: `refresh` of auth.service.ts.
use hktutor.Shared.{
  none, some, some, ℕ, inl, inr, Option, Bool, ◌==◌, ◌≡◌, Option-cases, arith, true, count_where,
  update_where, ◌&&◌, ◌≤◌, is_none, ◌≢◌, ap, sym, ◌∙◌, count_where-update_where_less,
  count_where-le, ==→eq, false, find-fits, Bool-cases, count_where_pos, ==_self,
  count_where-update_where_clear,
}
use hktutor.Database.Results.{ok, throw, Result-cases}
use hktutor.Database.Schema.{Uuid, AuthSession, Time, Store, User}
use hktutor.Accounts.Sessions.{
  Token, JwtPayload, refresh, Renewal, rotate_session, revoke_reused, AuthResult, with_user,
  find_session, is_refreshable, is_rotatable, rotate_row, revoke_row,
}
use hktutor.Database.Exceptions.{Exception, invalid_refresh_token}
use hktutor.Database.Queries.{find_user}

abbrev pub is_session : Uuid → AuthSession → Bool
is_session i a = a.id == i

pub with_user-session :
    (s : Store) (o : Option AuthSession) {a : AuthSession} {u : User}
    → with_user s o ≡ some (a, u)
    → o ≡ some a
with_user-session s none h = cc
with_user-session s (some b) {a} {u} h = elim (Option-cases (find_user b.user_id s)) [
  | inl missing ↦ ground arith
  | inr (v, found) ↦ ground arith
]

pub with_user-found :
    (t : Store) (sid : Uuid) (a : AuthSession) (u : User)
    → find_session sid t ≡ some a
    → find_user a.user_id t ≡ some u
    → with_user t (find_session sid t) ≡ some (a, u)
with_user-found t sid a u found owner = ground arith

module _ (digest : Token → ℕ) (verify_refresh_token : Token → Option JwtPayload) where
  -- What holds where a token is exchanged.
  pub record IsRotated (token : Token) (now : Time) (renewal : Renewal) (seen s t : Store)
      : Type 0 where
    pub payload : JwtPayload
    pub verified : verify_refresh_token token ≡ some payload
    pub session : AuthSession
    pub user : User
    pub found : with_user seen (find_session payload.sid seen) ≡ some (session, user)
    pub refreshable : is_refreshable payload now session user ≡ true
    pub matching : session.refresh_token_hash ≡ digest token
    pub single : count_where (is_rotatable payload (digest token) renewal.now) s.sessions ≡ 1
    pub left : t ≡ record s {
      sessions =
          update_where
            (is_rotatable payload (digest token) renewal.now)
            (rotate_row (digest renewal.token) renewal.expires_at renewal.now)
            s.sessions;
    }

  pub refresh-ok :
      (token : Token) (now : Time) (renewal : Renewal) (seen s t : Store) (r : AuthResult)
      → refresh digest verify_refresh_token (some token) now renewal seen s ≡ (ok r, t)
      → IsRotated token now renewal seen s t
  unfolding refresh rotate_session revoke_reused
  refresh-ok token now renewal seen s t r h = elim (Option-cases (verify_refresh_token token)) [
    | inl bad ↦ ground arith
    | inr (payload, verified) ↦
        elim (Option-cases (with_user seen (find_session payload.sid seen))) [
          | inl missing ↦ ground arith
          | inr ((a, u), found) ↦
              let refreshable : is_refreshable payload now a u ≡ true = ground arith in
              let matching : a.refresh_token_hash ≡ digest token = ground arith in
              record {
                payload = payload;
                verified = verified;
                session = a;
                user = u;
                found = found;
                refreshable = refreshable;
                matching = matching;
                single = ground arith;
                left = ground arith;
              }
        ]
  ]

  -- A session whose refresh token has the given digest, and one that is not revoked.
  abbrev pub holds_hash : Uuid → ℕ → AuthSession → Bool
  holds_hash sid hash a = a.id == sid && a.refresh_token_hash == hash

  abbrev pub is_open_session : Uuid → AuthSession → Bool
  is_open_session sid a = a.id == sid && is_none a.revoked_at

  -- Behind an exchange the session does not hold the token any more.
  exchanged :
      (token : Token) (now : Time) (renewal : Renewal) (seen s t : Store) (payload : JwtPayload)
      → verify_refresh_token token ≡ some payload
      → IsRotated token now renewal seen s t
      → count_where (is_session payload.sid) s.sessions ≤ 1
      → digest renewal.token ≢ digest token
      → count_where (holds_hash payload.sid (digest token)) t.sessions ≡ 0
  exchanged token now renewal seen s t payload verified rotated unique fresh =
      let same : rotated.payload ≡ payload = ground (arith, rotated.verified) in
      let w = is_rotatable payload (digest token) renewal.now in
      let v = holds_hash payload.sid (digest token) in
      let f = rotate_row (digest renewal.token) renewal.expires_at renewal.now in
      let single : count_where w s.sessions ≡ 1 =
        ap (λ q. count_where (is_rotatable q (digest token) renewal.now) s.sessions) (sym same)
        ∙ rotated.single in
      let left : t.sessions ≡ update_where w f s.sessions =
        ap (λ u. u.sessions) rotated.left
        ∙ ap (λ q. update_where (is_rotatable q (digest token) renewal.now) f s.sessions) same in
      let step =
        count_where-update_where_less v w f s.sessions (λ x hit. (ground arith, ground arith)) in
      let below = count_where-le v (is_session payload.sid) s.sessions (λ x hit. ground arith) in
      ap (count_where v) left ∙ omega arith

  -- A token that the session does not hold revokes the session.
  revoked :
      (token : Token) (now : Time) (renewal : Renewal) (t : Store) (payload : JwtPayload)
      (a : AuthSession) (u : User)
      → verify_refresh_token token ≡ some payload
      → with_user t (find_session payload.sid t) ≡ some (a, u)
      → is_refreshable payload now a u ≡ true
      → (a.refresh_token_hash == digest token) ≡ false
      → refresh digest verify_refresh_token (some token) now renewal t t
        ≡ revoke_reused digest verify_refresh_token a now t
  unfolding refresh
  revoked token now renewal t payload a u verified found live other = ground arith

  revoke_reused-revokes :
      (now : Time) (t : Store) (sid : Uuid) (a : AuthSession)
      → find_session sid t ≡ some a
      → let again = revoke_reused digest verify_refresh_token a now t in
        (again.0 ≡ throw invalid_refresh_token)
        × (count_where (is_open_session sid) again.1.sessions ≡ 0)
  unfolding revoke_reused
  revoke_reused-revokes now t sid a found =
      let same : a.id ≡ sid = ==→eq a.id sid (find-fits (is_session sid) t.sessions found) in
      let there =
        count_where_pos (is_session sid) (is_session a.id) t.sessions found (==_self a.id) in
      let clear =
        count_where-update_where_clear (is_open_session sid) (is_session a.id) (revoke_row now)
          t.sessions (λ x hit. ground arith) (λ x hit. ground arith) in
      (ground arith, ground arith)

  -- A refresh token is exchanged once: where ids of sessions are unique and the new token has
  -- another digest, no later request with the old token is answered, whatever it had read before.
  -- One that reads the tables as the exchange left them, with the session still valid, revokes the
  -- session.
  pub refresh-reused :
      (token : Token) (now now' : Time) (renewal renewal' : Renewal) (seen seen' s t : Store)
      (payload : JwtPayload) (r : AuthResult)
      → refresh digest verify_refresh_token (some token) now renewal seen s ≡ (ok r, t)
      → verify_refresh_token token ≡ some payload
      → count_where (is_session payload.sid) s.sessions ≤ 1
      → digest renewal.token ≢ digest token
      → ((e : Exception) × ((refresh digest verify_refresh_token
              (some token)
              now'
              renewal'
              seen'
              t).0
            ≡ throw e))
        × ((a : AuthSession) (u : User)
            → with_user t (find_session payload.sid t) ≡ some (a, u)
            → is_refreshable payload now' a u ≡ true
            → let again = refresh digest verify_refresh_token (some token) now' renewal' t t in
              (again.0 ≡ throw invalid_refresh_token)
              × (count_where (is_open_session payload.sid) again.1.sessions ≡ 0))
  refresh-reused token now now' renewal renewal' seen seen' s t payload r h verified unique fresh =
      let rotated = refresh-ok token now renewal seen s t r h in
      let gone = exchanged token now renewal seen s t payload verified rotated unique fresh in
      (
        elim (Result-cases
            (refresh digest verify_refresh_token (some token) now' renewal' seen' t).0) [
              | inr (e, failed) ↦ (e, failed)
              | inl (q, accepted) ↦
                  let second =
                    refresh-ok token now' renewal' seen' t
                      (refresh digest verify_refresh_token (some token) now' renewal' seen' t).1 q
                      (ground arith) in
                  let same : second.payload ≡ payload = ground (arith, second.verified) in
                  let le =
                    count_where-le (is_rotatable second.payload (digest token) renewal'.now)
                      (holds_hash payload.sid (digest token)) t.sessions (λ x hit. ground arith) in
                  absurd (omega (arith, second.single))
            ],
        λ a u found live.
            let at : find_session payload.sid t ≡ some a =
              with_user-session t (find_session payload.sid t) found in
            let mine = find-fits (is_session payload.sid) t.sessions at in
            let other : (a.refresh_token_hash == digest token) ≡ false =
              elim (Bool-cases (a.refresh_token_hash == digest token)) [
                | inr differs ↦ differs
                | inl holds ↦
                    let counted =
                      count_where_pos (is_session payload.sid)
                        (holds_hash payload.sid (digest token)) t.sessions at (ground arith) in
                    absurd (omega arith)
              ] in
            rw (revoked token now' renewal' t payload a u verified found live other)
              (revoke_reused-revokes now' t payload.sid a at),
      )
