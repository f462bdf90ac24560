-- ===== src/Shared/Tables.antt =====
-- A table as the list of its rows: the first row that fits (`findUnique`, `findFirst`), the number
-- of rows that fit (`count`, and the count that `updateMany` returns), and `updateMany` itself.
use Prim.Native.Nat.{ℕ, ◌+◌}
use mathlib.Core.Path.{◌≡◌, refl}
use mathlib.Core.Logic.{inl, inr}
use mathlib.Core.Bool.{Bool, true, false, ◌||◌}
use mathlib.Core.Option.{Option, none, some}
use mathlib.Core.List.{List, [], ◌∷◌, ◌++◌}
use native.Mathlib.Omega.{arith}
use hktutor.Shared.Tests.{if◌then◌else◌, Bool-cases}

module _ {ℓ} {A : Type ℓ} where
  abbrev pub find : (A → Bool) → List A → Option A
  find p [] = none
  find p (x ∷ xs) = if p x then some x else find p xs

  abbrev pub any : (A → Bool) → List A → Bool
  any p [] = false
  any p (x ∷ xs) = p x || any p xs

  abbrev pub count_where : (A → Bool) → List A → ℕ
  count_where p [] = 0
  count_where p (x ∷ xs) = (if p x then 1 else 0) + count_where p xs

  abbrev pub update_where : (A → Bool) → (A → A) → List A → List A
  update_where p f [] = []
  update_where p f (x ∷ xs) = (if p x then f x else x) ∷ update_where p f xs

  -- The rows that meet a condition, in the order of the table.
  abbrev pub select : (A → Bool) → List A → List A
  select p [] = []
  select p (x ∷ xs) = let more = select p xs in if p x then x ∷ more else more

  abbrev pub All {κ} : (A → Type κ) → List A → Type κ
  All P [] = Unit
  All P (x ∷ xs) = P x × All P xs

  pub All-append {κ} :
      (P : A → Type κ) (xs : List A) (y : A) → All P xs → P y → All P (xs ++ y ∷ [])
  All-append P [] y h p = (p, tt)
  All-append P (x ∷ xs) y (q, h) p = (q, All-append P xs y h p)

  pub All-update_where {κ} :
      (P : A → Type κ) (w : A → Bool) (f : A → A) (xs : List A)
      → ((x : A) → w x ≡ true → P x → P (f x))
      → All P xs
      → All P (update_where w f xs)
  All-update_where P w f [] keep h = tt
  All-update_where P w f (x ∷ xs) keep (p, h) = (step (w x) refl, All-update_where P w f xs keep h)
    where
      step : (b : Bool) → w x ≡ b → P (if b then f x else x)
      step true e = keep x e p
      step false e = p

  pub All-find {κ} :
      (P : A → Type κ) (w : A → Bool) (xs : List A) {x : A}
      → All P xs
      → find w xs ≡ some x
      → P x × (w x ≡ true)
  All-find P w [] {x} h e = cc
  All-find P w (y ∷ xs) {x} h e = elim (Bool-cases (w y)) [
    | inl fits ↦ let same : y ≡ x = ground arith in rw (← same) (h.0, fits)
    | inr other ↦ All-find P w xs h.1 (rw other at e)
  ]

  pub find-fits : (p : A → Bool) (xs : List A) {a : A} → find p xs ≡ some a → p a ≡ true
  find-fits p [] h = cc
  find-fits p (x ∷ xs) {a} h = elim (Bool-cases (p x)) [
    | inl fits ↦ let same : x ≡ a = ground arith in rw (← same) fits
    | inr other ↦ find-fits p xs (rw other at h)
  ]
