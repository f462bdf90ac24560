-- ===== src/Accounts/SignIn.antt =====
-- What `login` of auth.service.ts opens, and what can be done with it.
use hktutor.Shared.{
  refl, [], ◌∷◌, none, some, ℕ, inl, inr, Option, Bool, any, ◌≡◌, Option-cases, count_where, find,
  true, ◌==◌, arith, ◌++◌, ◌≤◌, ◌<◌, ap, any-found, sym, find-fits, find_unique, subst, ==→eq, ◌∙◌,
  ==_self, find-append, count_where-le, count_where-append,
}
use hktutor.Database.Results.{ok}
use hktutor.Accounts.Sessions.{
  Token, JwtPayload, refresh, Renewal, rotate_session, AuthResult, create_session, is_verified_live,
  find_session, with_user, is_refreshable, is_rotatable,
}
use hktutor.Database.Schema.{Store, Uuid, AuthSession, Time, User}
use hktutor.Accounts.Login.{Credentials, login, write_login, is_same_login}
use hktutor.Database.Values.{Value}
use hktutor.Accounts.Passwords.{has_email}
use hktutor.Accounts.Rotation.{is_session, with_user-found}
use hktutor.Database.Queries.{find_user}

-- The row of a new session.
abbrev pub opened : (Token → ℕ) → Uuid → Uuid → Renewal → AuthSession
opened digest user id renewal = record {
  id = id;
  user_id = user;
  refresh_token_hash = digest renewal.token;
  expires_at = renewal.expires_at;
  revoked_at = none;
  last_used_at = none;
}

module _ (digest : Token → ℕ) (verify_refresh_token : Token → Option JwtPayload)
    (verify_password : ℕ → ℕ → Bool) where
  -- What holds where somebody signs in.
  pub record IsSignedIn (dto : Credentials) (id : Uuid) (renewal : Renewal) (seen s t : Store)
      (r : AuthResult) : Type 0 where
    pub user : User
    pub hash : ℕ
    pub found : find (has_email dto.email) seen.users ≡ some user
    pub hashed : user.password_hash ≡ some hash
    pub verified : verify_password hash dto.password ≡ true
    pub account : any (is_same_login user.id hash) s.users ≡ true
    pub left : t ≡ record s { sessions = s.sessions ++ opened digest user.id id renewal ∷ [] }
    pub answer : (r.user_id ≡ user.id) × (r.session_id ≡ id) × (r.refresh_token ≡ renewal.token)

  -- Whoever signs in has sent the password of the account with that email, and the account is still
  -- live and verified, with the same password, when its session is stored; that session, which
  -- holds the digest of the token that is returned, is all that is written.
  pub login-ok :
      (dto : Credentials) (id : Uuid) (renewal : Renewal) (seen s t : Store)
      (refusal : Option Value) (r : AuthResult)
      → login digest verify_refresh_token verify_password dto id renewal seen refusal s ≡ (ok r, t)
      → IsSignedIn dto id renewal seen s t r
  unfolding login write_login create_session
  login-ok dto id renewal seen s t refusal r h =
      elim (Option-cases (find (has_email dto.email) seen.users)) [
        | inl missing ↦ ground arith
        | inr (u, found) ↦ elim (Option-cases u.password_hash) [
          | inl no_hash ↦ ground arith
          | inr (hash, hashed) ↦
              let account : any (is_same_login u.id hash) s.users ≡ true = ground arith in
              record {
                user = u;
                hash = hash;
                found = found;
                hashed = hashed;
                verified = ground arith;
                account = account;
                left = ground arith;
                answer = (ground arith, ground arith, ground arith);
              }
        ]
      ]

  -- The account of a session that was opened, under unique ids of users.
  account_of :
      (s : Store) (id : Uuid) (hash : ℕ)
      → any (is_same_login id hash) s.users ≡ true
      → count_where (λ u. u.id == id) s.users ≤ 1
      → (u : User) × (find_user id s ≡ some u) × (is_verified_live u ≡ true)
  account_of s id hash account unique =
      let (u, found) = any-found (is_same_login id hash) s.users account in
      let fits = find-fits (is_same_login id hash) s.users found in
      (
        u,
        find_unique (is_same_login id hash) (λ w. w.id == id) s.users found (ground arith) unique,
        ground arith,
      )

  -- A token that its session holds is exchanged.
  exchange :
      (token : Token) (payload : JwtPayload) (now : Time) (next : Renewal) (t : Store)
      (a : AuthSession) (u : User)
      → verify_refresh_token token ≡ some payload
      → with_user t (find_session payload.sid t) ≡ some (a, u)
      → is_refreshable payload now a u ≡ true
      → a.refresh_token_hash ≡ digest token
      → count_where (is_rotatable payload (digest token) next.now) t.sessions ≡ 1
      → (refresh digest verify_refresh_token (some token) now next t t).0
        ≡ ok (record {
          refresh_token = next.token;
          session_id = payload.sid;
          user_id = u.id;
          email = u.email;
          role = u.role;
        })
  unfolding refresh rotate_session
  exchange token payload now next t a u verified found live held single =
      let same : (a.refresh_token_hash == digest token) ≡ true = rw held (==_self (digest token)) in
      ground (arith, held)

  -- A session that a sign-in opens can be refreshed: where ids are unique, the token that was
  -- returned is verified as that of the user and the session, and it has not expired, `refresh`
  -- returns a new token for the session.
  pub login-refresh :
      (dto : Credentials) (id : Uuid) (renewal next : Renewal) (now : Time) (seen s t : Store)
      (refusal : Option Value) (r : AuthResult)
      → login digest verify_refresh_token verify_password dto id renewal seen refusal s ≡ (ok r, t)
      → count_where (is_session id) s.sessions ≡ 0
      → count_where (λ u. u.id == r.user_id) s.users ≤ 1
      → verify_refresh_token r.refresh_token ≡ some (record { sub = r.user_id; sid = id })
      → now < renewal.expires_at
      → next.now < renewal.expires_at
      → (q : AuthResult) × ((refresh digest verify_refresh_token
            (some r.refresh_token)
            now
            next
            t
            t).0
          ≡ ok q)
        × (q.refresh_token ≡ next.token)
        × (q.session_id ≡ id)
        × (q.user_id ≡ r.user_id)
  login-refresh dto id renewal next now seen s t refusal r h free unique verified in_time in_time' =
      let signed = login-ok dto id renewal seen s t refusal r h in
      let session = opened digest signed.user.id id renewal in
      let user = signed.user.id in
      let token = renewal.token in
      let payload : JwtPayload = record { sub = user; sid = id } in
      let sessions : t.sessions ≡ s.sessions ++ session ∷ [] = ap (λ w. w.sessions) signed.left in
      let (u, owner, live) =
        account_of s user signed.hash signed.account
          (subst (λ i. count_where (λ w. w.id == i) s.users ≤ 1) signed.answer.0 unique) in
      let named : u.id ≡ user = ==→eq u.id user (find-fits (λ w. w.id == user) s.users owner) in
      let verified' : verify_refresh_token token ≡ some payload =
        ap verify_refresh_token (sym signed.answer.2)
        ∙ verified
        ∙ ap (λ i. some (record { sub = i; sid = id })) signed.answer.0 in
      let found : find_session id t ≡ some session =
        ap (find (is_session id)) sessions
        ∙ find-append (is_session id) s.sessions session free (==_self id) in
      let owner' : find_user user t ≡ some u = ap (find_user user) signed.left ∙ owner in
      let before =
        count_where-le (is_rotatable payload (digest token) next.now) (is_session id) s.sessions
          (λ x p. ground arith) in
      let single : count_where (is_rotatable payload (digest token) next.now) t.sessions ≡ 1 =
        ap (count_where (is_rotatable payload (digest token) next.now)) sessions
        ∙ ground (
          arith,
          count_where-append (is_rotatable payload (digest token) next.now) s.sessions
              (session ∷ []),
          ==_self id,
          ==_self (digest token),
        ) in
      let result : AuthResult = record {
        refresh_token = next.token;
        session_id = id;
        user_id = u.id;
        email = u.email;
        role = u.role;
      } in
      (
        result,
        ap (λ k. (refresh digest verify_refresh_token (some k) now next t t).0) signed.answer.2
            ∙ exchange token payload now next t session u verified'
                (with_user-found t id session u found owner') (ground (arith, ==_self user)) refl
                single,
        refl,
        refl,
        named ∙ sym signed.answer.0,
      )
