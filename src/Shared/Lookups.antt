-- ===== src/Shared/Lookups.antt =====
-- The row that a query finds, where an update meets it or a condition counts it.
use Prim.Native.Nat.{◌+◌, ◌≤◌}
use mathlib.Core.Path.{◌≡◌, refl, ap, ◌∙◌}
use mathlib.Core.Logic.{inl, inr}
use mathlib.Core.Bool.{Bool, true, false}
use mathlib.Core.Option.{none, some}
use mathlib.Core.List.{List, [], ◌∷◌, ◌++◌}
use native.Mathlib.Omega.{arith}
use hktutor.Shared.Tests.{if◌then◌else◌, Bool-cases}
use hktutor.Shared.Tables.{any, find, count_where, update_where, All}
use hktutor.Shared.Counts.{count_where-le, update_where-none}

module _ {ℓ} {A : Type ℓ} where
  -- A row that is found is counted, if it meets the condition.
  pub count_where_pos :
      (v w : A → Bool) (xs : List A) {a : A}
      → find v xs ≡ some a
      → w a ≡ true
      → 1 ≤ count_where w xs
  count_where_pos v w [] e h = cc
  count_where_pos v w (x ∷ xs) {a} e h = elim (Bool-cases (v x)) [
    | inl fits ↦ let same : x ≡ a = ground arith in ground arith
    | inr other ↦ let later = count_where_pos v w xs (rw other at e) h in omega arith
  ]

  -- A row that is found fails a condition that no row meets.
  pub find-miss :
      (v w : A → Bool) (xs : List A) {a : A}
      → find v xs ≡ some a
      → count_where w xs ≡ 0
      → w a ≡ false
  find-miss v w xs {a} e n = elim (Bool-cases (w a)) [
    | inr miss ↦ miss
    | inl hit ↦ let counted = count_where_pos v w xs e hit in absurd (omega arith)
  ]

  -- Where one row alone meets the condition, it is the row that was found.
  pub All-update_where_once {κ} :
      (P : A → Type κ) (v w : A → Bool) (f : A → A) (xs : List A) {a : A}
      → find v xs ≡ some a
      → w a ≡ true
      → count_where w xs ≡ 1
      → All P xs
      → P (f a)
      → All P (update_where w f xs)
  All-update_where_once P v w f [] e h n ps p = tt
  All-update_where_once P v w f (x ∷ xs) {a} e h n ps p = elim (Bool-cases (v x)) [
    | inl fits ↦
        let same : x ≡ a = ground arith in
        let hit : w x ≡ true = ground arith in
        let rest : count_where w xs ≡ 0 = ground arith in
        rw (hit, update_where-none w f xs rest) (rw same p, ps.1)
    | inr other ↦
        let e' : find v xs ≡ some a = rw other at e in
        let later = count_where_pos v w xs e' h in
        let miss : w x ≡ false = ground arith in
        rw miss (ps.0, All-update_where_once P v w f xs e' h (ground arith) ps.1 p)
  ]

  -- An update of the one row that was found changes a count by that row alone.
  pub count_where-update_where_once :
      (p v w : A → Bool) (f : A → A) (xs : List A) {a : A}
      → find v xs ≡ some a
      → w a ≡ true
      → count_where w xs ≡ 1
      → count_where p (update_where w f xs) + (if p a then 1 else 0)
        ≡ count_where p xs + (if p (f a) then 1 else 0)
  count_where-update_where_once p v w f [] e h n = cc
  count_where-update_where_once p v w f (x ∷ xs) {a} e h n = elim (Bool-cases (v x)) [
    | inl fits ↦
        let same : x ≡ a = ground arith in
        let hit : w x ≡ true = ground arith in
        let rest : count_where w xs ≡ 0 = ground arith in
        rw (hit, update_where-none w f xs rest, same) (omega arith)
    | inr other ↦
        let e' : find v xs ≡ some a = rw other at e in
        let later = count_where_pos v w xs e' h in
        let miss : w x ≡ false = ground arith in
        let ih = count_where-update_where_once p v w f xs e' h (ground arith) in
        rw miss (omega arith)
  ]

  -- If the one row of an id fails a test, no row of that id passes it.
  pub count_where_miss :
      (v w : A → Bool) (xs : List A) {a : A}
      → find v xs ≡ some a
      → w a ≡ false
      → count_where v xs ≤ 1
      → ((x : A) → w x ≡ true → v x ≡ true)
      → count_where w xs ≡ 0
  count_where_miss v w [] e m n sub = refl
  count_where_miss v w (x ∷ xs) {a} e m n sub = elim (Bool-cases (v x)) [
    | inl fits ↦
        let same : x ≡ a = ground arith in
        let none_left : count_where v xs ≡ 0 = ground arith in
        ground (arith, count_where-le w v xs sub)
    | inr other ↦ ground (arith, sub x, count_where_miss v w xs (rw other at e) m)
  ]

  pub All-update_where_to {κ μ} :
      (P : A → Type κ) (Q : A → Type μ) (w : A → Bool) (f : A → A) (xs : List A)
      → ((x : A) → P x → Q (if w x then f x else x))
      → All P xs
      → All Q (update_where w f xs)
  All-update_where_to P Q w f [] to h = tt
  All-update_where_to P Q w f (x ∷ xs) to h = (to x h.0, All-update_where_to P Q w f xs to h.1)

  -- A row that is found is found under any other test that it alone meets.
  pub find_unique :
      (v w : A → Bool) (xs : List A) {a : A}
      → find v xs ≡ some a
      → w a ≡ true
      → count_where w xs ≤ 1
      → find w xs ≡ some a
  find_unique v w [] e h n = cc
  find_unique v w (x ∷ xs) {a} e h n = elim (Bool-cases (v x)) [
    | inl fits ↦ let same : x ≡ a = ground arith in rw (same, h) refl
    | inr other ↦
        let e' : find v xs ≡ some a = rw other at e in
        let later = count_where_pos v w xs e' h in
        let miss : w x ≡ false = ground arith in rw miss (find_unique v w xs e' h (ground arith))
  ]

  -- The row that was found is found again, as the update left it.
  pub find-update_where :
      (v w : A → Bool) (f : A → A) (xs : List A) {a : A}
      → find v xs ≡ some a
      → ((x : A) → v (f x) ≡ v x)
      → find v (update_where w f xs) ≡ some (if w a then f a else a)
  find-update_where v w f [] e same = cc
  find-update_where v w f (x ∷ xs) {a} e same = elim (Bool-cases (v x)) [
    | inl fits ↦
        let eq : x ≡ a = ground arith in
        let kept : v (if w x then f x else x) ≡ true = ground (arith, same x) in rw (kept, eq) refl
    | inr other ↦
        let missed : v (if w x then f x else x) ≡ false = ground (arith, same x) in
        rw missed (find-update_where v w f xs (rw other at e) same)
  ]

  pub any-find : (p : A → Bool) (xs : List A) → any p xs ≡ false → find p xs ≡ none
  any-find p [] h = refl
  any-find p (x ∷ xs) h = ground (arith, any-find p xs)

  -- A row that no other stands before in the way of a condition is found where it was appended.
  pub find-append :
      (p : A → Bool) (xs : List A) (y : A)
      → count_where p xs ≡ 0
      → p y ≡ true
      → find p (xs ++ y ∷ []) ≡ some y
  find-append p [] y n h = rw h refl
  find-append p (x ∷ xs) y n h =
      let miss : p x ≡ false = ground arith in rw miss (find-append p xs y (ground arith) h)

  pub any-found : (p : A → Bool) (xs : List A) → any p xs ≡ true → (a : A) × (find p xs ≡ some a)
  any-found p [] h = absurd (ground arith)
  any-found p (x ∷ xs) h = elim (Bool-cases (p x)) [
    | inl fits ↦ (x, rw fits refl)
    | inr other ↦ let (a, found) = any-found p xs (rw other at h) in (a, rw other found)
  ]

  All-miss :
      (w : A → Bool) (a : A) (xs : List A) → count_where w xs ≡ 0 → All (λ x. w x ≡ true → x ≡ a) xs
  All-miss w a [] n = tt
  All-miss w a (x ∷ xs) n =
      let miss : w x ≡ false = ground arith in (λ hit. ground arith, All-miss w a xs (ground arith))

  -- Where a condition is met once, by the row that was found, every row that meets it is that row.
  pub All-single :
      (v w : A → Bool) (xs : List A) {a : A}
      → find v xs ≡ some a
      → w a ≡ true
      → count_where w xs ≤ 1
      → All (λ x. w x ≡ true → x ≡ a) xs
  All-single v w [] e h n = tt
  All-single v w (x ∷ xs) {a} e h n = elim (Bool-cases (v x)) [
    | inl fits ↦
        let same : x ≡ a = ground arith in
        let hit : w x ≡ true = ap w same ∙ h in
        let rest : count_where w xs ≡ 0 = ground arith in (λ p. same, All-miss w a xs rest)
    | inr other ↦
        let e' : find v xs ≡ some a = rw other at e in
        let later = count_where_pos v w xs e' h in
        let miss : w x ≡ false = ground arith in
        (λ p. ground arith, All-single v w xs e' h (ground arith))
  ]
