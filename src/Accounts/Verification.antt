-- ===== src/Accounts/Verification.antt =====
-- What `verifyEmail` of auth.service.ts leaves, and what an accepted link shows.
use hktutor.Shared.{
  refl, [], ◌∷◌, none, some, ℕ, inl, inr, Option, List, All, ◌≡◌, Option-cases, count_where,
  is_some, arith, true, find, update_where, ◌==◌, ◌&&◌, Bool-cases, ==_self, ◌++◌, ◌≤◌, find-fits,
  ==→eq, is_none, ap, sym, ◌∙◌, count_where-update_where_less, count_where-le, subst, find_unique,
}
use hktutor.Database.Enums.{AccountStatus, is_account_active}
use hktutor.Accounts.SignIn.{opened}
use hktutor.Accounts.Reset.{is_token}
use hktutor.Database.Results.{ok, throw, Result-cases}
use hktutor.Accounts.Sessions.{Token, JwtPayload, Renewal, create_session, AuthResult, is_live}
use hktutor.Database.Schema.{Store, Time, Uuid, OneTimeToken, User}
use hktutor.Accounts.Emails.{
  verify_email, write_verification, find_verification_token, token_user, or_now,
}
use hktutor.Database.Values.{Value}
use hktutor.Accounts.Passwords.{is_valid_token, is_redeemable, consume_row}
use hktutor.Database.Queries.{find_user}
use hktutor.Database.Exceptions.{Exception}

pub is_account_active-eq :
    (a : AccountStatus) → is_account_active a ≡ true → a ≡ AccountStatus.active
is_account_active-eq AccountStatus.active h = refl
is_account_active-eq AccountStatus.suspended h = cc
is_account_active-eq AccountStatus.deleted h = cc

module _ (digest : Token → ℕ) (verify_refresh_token : Token → Option JwtPayload) where
  -- What holds where a verification link is accepted.
  pub record IsVerified (token : Token) (now consumed_at : Time) (id : Uuid) (renewal : Renewal)
      (seen s t : Store) (r : AuthResult) : Type 0 where
    pub row : OneTimeToken
    pub found : find_verification_token (digest token) seen ≡ some row
    pub valid : is_valid_token now row ≡ true
    pub user : User
    pub account : find (λ u. u.id == row.user_id && is_live u) s.users ≡ some user
    pub single : count_where (is_redeemable row.id consumed_at) s.verification_tokens ≡ 1
    pub left : t ≡ record s {
      verification_tokens =
          update_where
            (is_redeemable row.id consumed_at)
            (consume_row consumed_at)
            s.verification_tokens;
      users =
          update_where
            (λ u. u.id == user.id)
            (λ u. record u { email_verified_at = or_now user.email_verified_at consumed_at })
            s.users;
      sessions = s.sessions ++ opened digest user.id id renewal ∷ [];
    }
    pub answer : (r.user_id ≡ user.id) × (r.session_id ≡ id) × (r.refresh_token ≡ renewal.token)

  token_user-token :
      (s : Store) (o : Option OneTimeToken) {k : OneTimeToken} {u : User}
      → token_user s o ≡ some (k, u)
      → o ≡ some k
  token_user-token s none h = cc
  token_user-token s (some j) {k} {u} h = elim (Option-cases (find_user j.user_id s)) [
    | inl missing ↦ ground arith
    | inr (v, found) ↦ ground arith
  ]

  pub verify_email-ok :
      (token : Token) (now consumed_at : Time) (id : Uuid) (renewal : Renewal) (seen s t : Store)
      (refusal : Option Value) (r : AuthResult)
      → verify_email digest verify_refresh_token token now consumed_at id renewal seen refusal s
        ≡ (ok r, t)
      → IsVerified token now consumed_at id renewal seen s t r
  unfolding verify_email write_verification create_session
  verify_email-ok token now consumed_at id renewal seen s t refusal r h =
      elim (Option-cases (token_user seen (find_verification_token (digest token) seen))) [
        | inl missing ↦ ground arith
        | inr ((row, w), found) ↦
            elim (Option-cases (find (λ u. u.id == row.user_id && is_live u) s.users)) [
              | inl gone ↦ ground arith
              | inr (u, account) ↦
                  let single : count_where (is_redeemable row.id consumed_at) s.verification_tokens
                      ≡ 1 =
                    ground arith in
                  record {
                    row = row;
                    found =
                        token_user-token seen (find_verification_token (digest token) seen) found;
                    valid = ground arith;
                    user = u;
                    account = account;
                    single = single;
                    left = ground arith;
                    answer = (ground arith, ground arith, ground arith);
                  }
            ]
      ]

  verified_row :
      (user : Uuid) (at : Option Time) (now : Time) (us : List User)
      → All
          (λ u. u.id ≡ user → is_some u.email_verified_at ≡ true)
          (update_where
            (λ u. u.id == user)
            (λ u. record u { email_verified_at = or_now at now })
            us)
  verified_row user at now [] = tt
  verified_row user at now (u ∷ us) = (
    elim (Bool-cases (u.id == user)) [
      | inl own ↦
          rw own
            (λ e. elim (Option-cases at) [ inl unset ↦ ground arith | inr (x, set) ↦ ground arith ])
      | inr other ↦ rw other (λ e. ground (arith, ==_self user))
    ],
    verified_row user at now us,
  )

  -- A verification link is good for one sign-in. Where ids are unique, an accepted link belongs to
  -- an account that is stored, active and not deleted; its email is verified from then on, and one
  -- session is added, of that account, under the id and with the token that are answered. The
  -- link's token is consumed, so that it cannot be accepted again, whatever the second request had
  -- read before.
  pub verify_email-once :
      (token : Token) (now now' consumed_at consumed_at' : Time) (id id' : Uuid)
      (renewal renewal' : Renewal) (seen seen' s t : Store) (refusal refusal' : Option Value)
      (r : AuthResult) (row row' : OneTimeToken)
      → verify_email digest verify_refresh_token token now consumed_at id renewal seen refusal s
        ≡ (ok r, t)
      → find_verification_token (digest token) seen ≡ some row
      → count_where (is_token row.id) s.verification_tokens ≤ 1
      → count_where (λ u. u.id == row.user_id) s.users ≤ 1
      → find_verification_token (digest token) seen' ≡ some row'
      → row'.id ≡ row.id
      → ((u : User) × (find_user row.user_id s ≡ some u)
          × (u.deleted_at ≡ none)
          × (u.account_status ≡ AccountStatus.active))
        × All (λ u. u.id ≡ row.user_id → is_some u.email_verified_at ≡ true) t.users
        × (t.sessions
            ≡ s.sessions
              ++ record {
                id = id;
                user_id = row.user_id;
                refresh_token_hash = digest renewal.token;
                expires_at = renewal.expires_at;
                revoked_at = none;
                last_used_at = none;
              }
                ∷ [])
        × (r.user_id ≡ row.user_id)
        × (r.session_id ≡ id)
        × (r.refresh_token ≡ renewal.token)
        × ((e : Exception) × ((verify_email digest verify_refresh_token token now' consumed_at' id'
                renewal' seen' refusal' t).0
              ≡ throw e))
  verify_email-once token now now' consumed_at consumed_at' id id' renewal renewal' seen seen' s t
        refusal refusal' r row row' h found unique unique_user found' same_id =
      let first = verify_email-ok token now consumed_at id renewal seen s t refusal r h in
      let same : first.row ≡ row = ground (arith, first.found) in
      let owner = find-fits (λ u. u.id == first.row.user_id && is_live u) s.users first.account in
      let own : first.user.id ≡ row.user_id =
        ground (arith, ==→eq first.user.id first.row.user_id) in
      let w = is_redeemable row.id consumed_at in
      let v = λ (k : OneTimeToken). k.id == row.id && is_none k.consumed_at in
      let single : count_where w s.verification_tokens ≡ 1 =
        ap (λ k. count_where (is_redeemable k.id consumed_at) s.verification_tokens) (sym same)
        ∙ first.single in
      let left : t.verification_tokens
          ≡ update_where w (consume_row consumed_at) s.verification_tokens =
        ap (λ u. u.verification_tokens) first.left
        ∙ ap
            (λ k.
              update_where (is_redeemable k.id consumed_at) (consume_row consumed_at)
                s.verification_tokens)
            same in
      let less =
        count_where-update_where_less v w (consume_row consumed_at) s.verification_tokens
          (λ x p. (ground arith, ground arith)) in
      let below = count_where-le v (is_token row.id) s.verification_tokens (λ x p. ground arith) in
      let gone : count_where v t.verification_tokens ≡ 0 = ap (count_where v) left ∙ omega arith in
      let users : t.users
          ≡ update_where (λ u. u.id == row.user_id)
              (λ u. record u {
                email_verified_at = or_now first.user.email_verified_at consumed_at;
              })
              s.users =
        ap (λ u. u.users) first.left
        ∙ ap
            (λ i.
              update_where (λ u. u.id == i)
                (λ u. record u {
                  email_verified_at = or_now first.user.email_verified_at consumed_at;
                })
                s.users)
            own in
      let live : is_live first.user ≡ true = ground (arith, owner) in
      let stored : find_user row.user_id s ≡ some first.user =
        find_unique (λ u. u.id == first.row.user_id && is_live u) (λ u. u.id == row.user_id) s.users
          first.account (ground (arith, own, ==_self row.user_id)) unique_user in
      (
        (
          first.user,
          stored,
          ground (arith, live),
          is_account_active-eq first.user.account_status (ground (arith, live)),
        ),
        subst (All (λ u. u.id ≡ row.user_id → is_some u.email_verified_at ≡ true)) (sym users)
            (verified_row row.user_id first.user.email_verified_at consumed_at s.users),
        ap (λ u. u.sessions) first.left
            ∙ ap (λ i. s.sessions ++ opened digest i id renewal ∷ []) own,
        first.answer.0 ∙ own,
        first.answer.1,
        first.answer.2,
        elim (Result-cases
            (verify_email digest verify_refresh_token token now' consumed_at' id' renewal' seen'
              refusal' t).0) [
                | inr (e, failed) ↦ (e, failed)
                | inl (q, accepted) ↦
                    let second =
                      verify_email-ok token now' consumed_at' id' renewal' seen' t
                        (verify_email digest verify_refresh_token token now' consumed_at' id'
                          renewal' seen' refusal' t).1
                        refusal' q (ground arith) in
                    let same' : second.row ≡ row' = ground (arith, second.found) in
                    let id_of : second.row.id ≡ row.id = ap (λ k. k.id) same' ∙ same_id in
                    let le =
                      count_where-le (is_redeemable second.row.id consumed_at') v
                        t.verification_tokens (λ x p. ground arith) in
                    absurd (omega (arith, second.single))
              ],
      )
