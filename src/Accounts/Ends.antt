-- ===== src/Accounts/Ends.antt =====
-- What a reset of the password ends: `resetPassword` of auth.service.ts, with `refresh`, and
-- `verifyAccessSession` of access-session.ts.
use hktutor.Shared.{
  refl, [], ◌∷◌, none, some, ℕ, inl, inr, List, Bool, All, Option, ◌==◌, ◌&&◌, ◌≡◌, update_where,
  ◌!=◌, Bool-cases, arith, count_where, ◌<◌, ==_self, ◌≢◌, ◌≤◌, count_where-update_where_clear,
  subst, is_none, sym, ap, count_where-update_where_mono, count_where-update_where_less, ◌∙◌,
  count_where-le, count_where-update_where_same, count_where-cover, find-fits, find-miss,
}
use hktutor.Database.Results.{ok, throw, Result-cases}
use hktutor.Database.Schema.{Uuid, AuthSession, Time, Store, User, OneTimeToken}
use hktutor.Accounts.Sessions.{Token, revoke_row, JwtPayload, Renewal, refresh, is_rotatable}
use hktutor.Database.Values.{Value}
use hktutor.Accounts.Passwords.{
  reset_password, find_reset_token, is_open_token, consume_row, is_redeemable,
}
use hktutor.Accounts.Reset.{
  is_open_session_of, is_token, reset_password-ok, reset_password-throw, with_password,
}
use hktutor.Accounts.Access.{AccessPayload, verify_access_session}
use hktutor.Database.Exceptions.{Exception}
use hktutor.Accounts.Rotation.{refresh-ok, is_session}
use hktutor.Accounts.Admitted.{verify_access_session-ok}

-- The sessions of an id that are not those of a user.
abbrev pub is_foreign_session : Uuid → Uuid → AuthSession → Bool
is_foreign_session sid user a = a.id == sid && a.user_id != user

password_set :
    (user : Uuid) (hash : ℕ) (us : List User)
    → All
        (λ u. u.id ≡ user → u.password_hash ≡ some hash)
        (update_where (λ u. u.id == user) (λ u. record u { password_hash = some hash }) us)
password_set user hash [] = tt
password_set user hash (u ∷ us) = (
  elim (Bool-cases (u.id == user)) [
    | inl own ↦ rw own (λ e. refl)
    | inr other ↦ rw other (λ e. ground (arith, ==_self user))
  ],
  password_set user hash us,
)

-- A row that was redeemed is consumed, and stays so.
redeemed :
    (id user : Uuid) (now : Time) (ks : List OneTimeToken)
    → count_where (is_redeemable id now) ks ≡ 1
    → count_where (is_token id) ks ≤ 1
    → count_where
        (λ k. k.id == id && is_none k.consumed_at)
        (update_where
          (is_open_token user)
          (consume_row now)
          (update_where (is_redeemable id now) (consume_row now) ks))
      ≡ 0
redeemed id user now ks single unique =
    let v = λ (k : OneTimeToken). k.id == id && is_none k.consumed_at in
    let consume = consume_row now in
    let kept =
      count_where-update_where_mono v (is_open_token user) consume
        (update_where (is_redeemable id now) consume ks) (λ x o p. ground arith) in
    let less =
      count_where-update_where_less v (is_redeemable id now) consume ks
        (λ x p. (ground arith, ground arith)) in
    let below = count_where-le v (is_token id) ks (λ x p. ground arith) in omega arith

module _ (digest : Token → ℕ) where
  -- A reset that succeeds takes a token that was neither consumed nor expired, and sets the
  -- password of the token's user. It leaves the user no reset token and no verification token that
  -- is not consumed, and no session that is not revoked; the open sessions of other users are as
  -- many as before.
  pub reset_password-ends :
      (token : Token) (hash : ℕ) (now consumed_at : Time) (seen s t : Store)
      (refusal : Option Value)
      → reset_password digest token hash now consumed_at seen refusal s ≡ (ok tt, t)
      → (row : OneTimeToken) × (find_reset_token (digest token) seen ≡ some row)
        × (row.consumed_at ≡ none)
        × (now < row.expires_at)
        × All (λ u. u.id ≡ row.user_id → u.password_hash ≡ some hash) t.users
        × (count_where (is_open_token row.user_id) t.reset_tokens ≡ 0)
        × (count_where (is_open_token row.user_id) t.verification_tokens ≡ 0)
        × (count_where (is_open_session_of row.user_id) t.sessions ≡ 0)
        × ((other : Uuid)
            → other ≢ row.user_id
            → count_where (is_open_session_of other) t.sessions
              ≡ count_where (is_open_session_of other) s.sessions)
  reset_password-ends token hash now consumed_at seen s t refusal h =
      let reset = reset_password-ok digest token hash now consumed_at seen s t refusal h in
      let row = reset.row in
      let user = row.user_id in
      let open_tokens = is_open_token user in
      let consume = consume_row consumed_at in
      let open_sessions = is_open_session_of user in
      let clear_tokens = λ (ks : List OneTimeToken).
        count_where-update_where_clear open_tokens open_tokens consume ks (λ x p. p)
          (λ x p. ground arith) in
      let clear_sessions =
        count_where-update_where_clear open_sessions open_sessions (revoke_row consumed_at)
          s.sessions (λ x p. p) (λ x p. ground arith) in
      (
        row,
        reset.found,
        ground (arith, reset.valid),
        ground (arith, reset.valid),
        subst (λ u. All (λ u. u.id ≡ user → u.password_hash ≡ some hash) u.users) (sym reset.left)
            (password_set user hash s.users),
        ap (λ u. count_where open_tokens u.reset_tokens) reset.left
            ∙ clear_tokens (update_where (is_redeemable row.id consumed_at) consume s.reset_tokens),
        ap (λ u. count_where open_tokens u.verification_tokens) reset.left
            ∙ clear_tokens s.verification_tokens,
        ap (λ u. count_where open_sessions u.sessions) reset.left ∙ clear_sessions,
        λ other apart.
            ap (λ u. count_where (is_open_session_of other) u.sessions) reset.left
            ∙ count_where-update_where_same (is_open_session_of other) open_sessions
                (revoke_row consumed_at) s.sessions (λ x own. ground arith),
      )

  -- A reset token is redeemed once: where ids are unique, no later request with a token of the same
  -- row succeeds, whatever it had read before and whatever password it brings, and the tables stay
  -- as they are.
  pub reset_password-again :
      (token : Token) (hash hash' : ℕ) (now now' consumed_at consumed_at' : Time)
      (seen seen' s t : Store) (refusal refusal' : Option Value) (row row' : OneTimeToken)
      → reset_password digest token hash now consumed_at seen refusal s ≡ (ok tt, t)
      → find_reset_token (digest token) seen ≡ some row
      → count_where (is_token row.id) s.reset_tokens ≤ 1
      → find_reset_token (digest token) seen' ≡ some row'
      → row'.id ≡ row.id
      → (e : Exception) × (reset_password digest token hash' now' consumed_at' seen' refusal' t
          ≡ (throw e, t))
  reset_password-again token hash hash' now now' consumed_at consumed_at' seen seen' s t refusal
        refusal' row row' h found unique found' same_id =
      let again = reset_password digest token hash' now' consumed_at' seen' refusal' t in
      elim (Result-cases again.0) [
        | inr (e, failed) ↦
            let kept =
              reset_password-throw digest token hash' now' consumed_at' seen' t again.1 refusal' e
                (ground arith) in
            (e, ground arith)
        | inl (u, accepted) ↦
            let first = reset_password-ok digest token hash now consumed_at seen s t refusal h in
            let second =
              reset_password-ok digest token hash' now' consumed_at' seen' t again.1 refusal'
                (ground arith) in
            let same : first.row ≡ row = ground (arith, first.found) in
            let same' : second.row ≡ row' = ground (arith, second.found) in
            let single =
              ap (λ i. count_where (is_redeemable i consumed_at) s.reset_tokens)
                (sym (ap (λ k. k.id) same))
              ∙ first.single in
            let none_left =
              ap (λ u. count_where (λ k. k.id == row.id && is_none k.consumed_at) u.reset_tokens)
                first.left
              ∙ ap
                  (λ k.
                    count_where (λ j. j.id == row.id && is_none j.consumed_at)
                      (with_password k hash consumed_at s).reset_tokens)
                  same
              ∙ redeemed row.id row.user_id consumed_at s.reset_tokens single unique in
            let id_of : second.row.id ≡ row.id = ap (λ k. k.id) same' ∙ same_id in
            let le =
              count_where-le (is_redeemable second.row.id consumed_at')
                (λ k. k.id == row.id && is_none k.consumed_at) t.reset_tokens
                (λ x p. ground arith) in
            absurd (omega (arith, second.single))
      ]

  module _ (verify_refresh_token : Token → Option JwtPayload)
      (verify_access_token : Token → Option AccessPayload) where
    -- A session of the user whose password was reset is of no use any more: where all sessions of
    -- its id are the user's, neither `refresh` nor the check of an access token, by REST or by
    -- chat, succeeds behind the reset, also for a request that had read the session before it.
    pub reset_password-locks :
        (token refresh_token access_token : Token) (hash : ℕ) (now now' consumed_at : Time)
        (seen seen' s t : Store) (refusal : Option Value) (row : OneTimeToken)
        (payload : JwtPayload) (access : AccessPayload) (renewal : Renewal)
        (chat require_consent : Bool)
        → reset_password digest token hash now consumed_at seen refusal s ≡ (ok tt, t)
        → find_reset_token (digest token) seen ≡ some row
        → count_where (is_foreign_session payload.sid row.user_id) s.sessions ≡ 0
        → verify_refresh_token refresh_token ≡ some payload
        → verify_access_token access_token ≡ some access
        → access.claims.sid ≡ payload.sid
        → ((e : Exception) × ((refresh digest verify_refresh_token
                (some refresh_token)
                now'
                renewal
                seen'
                t).0
              ≡ throw e))
          × ((e : Exception) × (verify_access_session verify_access_token access_token chat
                  require_consent now' t
                ≡ throw e))
    reset_password-locks token refresh_token access_token hash now now' consumed_at seen seen' s t
          refusal row payload access renewal chat require_consent h found own verified admitted
          sid =
        let first = reset_password-ok digest token hash now consumed_at seen s t refusal h in
        let same : first.row ≡ row = ground (arith, first.found) in
        let open_sessions = is_open_session_of row.user_id in
        let foreign = is_foreign_session payload.sid row.user_id in
        let left : t.sessions ≡ update_where open_sessions (revoke_row consumed_at) s.sessions =
          ap (λ u. u.sessions) first.left
          ∙ ap (λ k. (with_password k hash consumed_at s).sessions) same in
        let closed : count_where open_sessions t.sessions ≡ 0 =
          ap (count_where open_sessions) left
          ∙ count_where-update_where_clear open_sessions open_sessions (revoke_row consumed_at)
              s.sessions (λ x p. p) (λ x p. ground arith) in
        let own' : count_where foreign t.sessions ≡ 0 =
          ap (count_where foreign) left
          ∙ count_where-update_where_same foreign open_sessions (revoke_row consumed_at) s.sessions
              (λ x p. refl)
          ∙ own in
        (
          elim (Result-cases
              (refresh digest verify_refresh_token (some refresh_token) now' renewal seen' t).0) [
                | inr (e, failed) ↦ (e, failed)
                | inl (q, accepted) ↦
                    let rotated =
                      refresh-ok digest verify_refresh_token refresh_token now' renewal seen' t
                        (refresh digest verify_refresh_token (some refresh_token) now' renewal seen'
                          t).1
                        q (ground arith) in
                    let same_payload : rotated.payload ≡ payload =
                      ground (arith, rotated.verified) in
                    let cover =
                      count_where-cover
                        (is_rotatable rotated.payload (digest refresh_token) renewal.now)
                        open_sessions foreign t.sessions (λ x p o. ground arith) in
                    absurd (omega (arith, rotated.single))
              ],
          elim (Result-cases (
              verify_access_session verify_access_token access_token chat require_consent now' t)) [
                | inr (e, failed) ↦ (e, failed)
                | inl (q, accepted) ↦
                    let (a, u, admit, fair, of_user, of_session, by_token, by_session) =
                      verify_access_session-ok verify_access_token access_token chat require_consent
                        now' t access q admitted accepted in
                    let mine = find-fits (is_session access.claims.sid) t.sessions admit.found in
                    let not_open =
                      find-miss (is_session access.claims.sid) open_sessions t.sessions admit.found
                        closed in
                    let not_foreign =
                      find-miss (is_session access.claims.sid) foreign t.sessions admit.found
                        own' in
                    absurd (ground (arith, admit.unrevoked, sid))
              ],
        )
