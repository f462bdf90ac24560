-- ===== src/Accounts/Issues.antt =====
-- One open token at a time: `issuePasswordReset` and `resendVerification` of auth.service.ts.
use hktutor.Shared.{
  refl, [], ◌∷◌, ℕ, inl, inr, List, count_where, ◌≡◌, Option, update_where, ◌≤◌, ◌++◌, ◌⊎◌,
  Option-cases, count_where-update_where_clear, arith, find, count_where-update_where_mono,
  Bool-cases, count_where-append, ◌&&◌, any, ◌==◌, ==→eq, not, ap, is_none, ◌∙◌,
}
use hktutor.Database.Schema.{Uuid, OneTimeToken, Time, Store}
use hktutor.Accounts.Sessions.{Token, is_live}
use hktutor.Accounts.Passwords.{
  issue_password_reset, new_token, Issue, write_reset_token, is_open_token, consume_row, has_email,
  may_reset, is_recent,
}
use hktutor.Accounts.Emails.{resend_verification, write_verification_token}
use hktutor.Database.Values.{Value}

-- An account has at most one token that is not consumed.
abbrev pub IsSingle : List OneTimeToken → Type 0
IsSingle ks = (user : Uuid) → count_where (is_open_token user) ks ≤ 1

-- The tokens behind an issue: those of the user are consumed, and a new one follows.
reissued :
    (user other : Uuid) (now : Time) (fresh : OneTimeToken) (ks : List OneTimeToken)
    → fresh.user_id ≡ user
    → IsSingle ks
    → count_where
        (is_open_token other)
        (update_where (is_open_token user) (consume_row now) ks ++ fresh ∷ [])
      ≤ 1
reissued user other now fresh ks of single =
    let closed =
      count_where-update_where_clear (is_open_token user) (is_open_token user) (consume_row now) ks
        (λ x p. p) (λ x p. ground arith) in
    let kept =
      count_where-update_where_mono (is_open_token other) (is_open_token user) (consume_row now) ks
        (λ x o p. ground arith) in
    let joined =
      count_where-append (is_open_token other)
        (update_where (is_open_token user) (consume_row now) ks) (fresh ∷ []) in
    let before = single other in
    elim (Bool-cases (other == user)) [
      | inl own ↦
          let same = ==→eq other user own in
          let closed' =
            ap
              (λ i.
                count_where (is_open_token i)
                  (update_where (is_open_token user) (consume_row now) ks))
              same
            ∙ closed in
          ground (arith, joined, closed')
      | inr apart ↦ ground (arith, joined, kept, before)
    ]

module _ (digest : Token → ℕ) where
  -- The tokens that `issuePasswordReset` leaves, whatever it returns.
  pub issue-tokens :
      (email : ℕ) (issue : Issue) (seen s : Store) (refusal : Option Value)
      → let t = (issue_password_reset digest email issue seen refusal s).1 in
        (t.reset_tokens ≡ s.reset_tokens)
        ⊎ ((user : Uuid) × (t.reset_tokens
              ≡ update_where (is_open_token user) (consume_row issue.now) s.reset_tokens
                ++ new_token digest user issue ∷ []))
  unfolding issue_password_reset write_reset_token
  issue-tokens email issue seen s refusal =
      elim (Option-cases (find (λ u. has_email email u && may_reset u) seen.users)) [
        | inl missing ↦ inl (ground arith)
        | inr (u, found) ↦ elim (Option-cases refusal) [
          | inr (v, refused) ↦ inl (ground arith)
          | inl accepted ↦
              elim (Bool-cases (
                any (λ w. w.id == u.id && may_reset w) s.users
                && not (any (is_recent u.id issue.now) s.reset_tokens))) [
                  | inr skipped ↦ inl (ground arith)
                  | inl written ↦ inr (u.id, ground arith)
                ]
        ]
      ]

  pub reissue-tokens :
      (email : ℕ) (issue : Issue) (seen s : Store) (refusal : Option Value)
      → let t = (resend_verification digest email issue seen refusal s).1 in
        (t.verification_tokens ≡ s.verification_tokens)
        ⊎ ((user : Uuid) × (t.verification_tokens
              ≡ update_where (is_open_token user) (consume_row issue.now) s.verification_tokens
                ++ new_token digest user issue ∷ []))
  unfolding resend_verification write_verification_token
  reissue-tokens email issue seen s refusal =
      elim (Option-cases (find (has_email email) seen.users)) [
        | inl missing ↦ inl (ground arith)
        | inr (u, found) ↦ elim (Option-cases refusal) [
          | inr (v, refused) ↦ inl (ground arith)
          | inl accepted ↦
              elim (Bool-cases (
                any (λ w. w.id == u.id && is_live w && is_none w.email_verified_at) s.users
                && not (any (is_recent u.id issue.now) s.verification_tokens))) [
                  | inr skipped ↦ inl (ground arith)
                  | inl written ↦ inr (u.id, ground arith)
                ]
        ]
      ]

  -- That no account has two open reset tokens, nor two open verification tokens, holds behind a
  -- request for a reset and behind a request for a new verification mail, whatever they had read
  -- before and whatever they return.
  pub issue_password_reset-IsSingle :
      (email : ℕ) (issue : Issue) (seen s : Store) (refusal : Option Value)
      → IsSingle s.reset_tokens
      → IsSingle s.verification_tokens
      → IsSingle (issue_password_reset digest email issue seen refusal s).1.reset_tokens
        × IsSingle (resend_verification digest email issue seen refusal s).1.verification_tokens
  unfolding new_token
  issue_password_reset-IsSingle email issue seen s refusal single single' = (
    λ user. elim (issue-tokens email issue seen s refusal) [
      | inl kept ↦ rw kept (single user)
      | inr (owner, left) ↦
          rw left (
            reissued owner user issue.now (new_token digest owner issue) s.reset_tokens refl single)
    ],
    λ user. elim (reissue-tokens email issue seen s refusal) [
      | inl kept ↦ rw kept (single' user)
      | inr (owner, left) ↦ rw left (
          reissued owner user issue.now (new_token digest owner issue) s.verification_tokens refl
            single')
    ],
  )
