-- ===== src/Shared/Counts.antt =====
-- How an `updateMany` or an insert changes the number of rows that meet a condition.
use Prim.Native.Nat.{◌+◌, ◌≤◌}
use mathlib.Core.Path.{◌≡◌, refl}
use mathlib.Core.Bool.{Bool, true, false, ◌||◌}
use mathlib.Core.List.{List, [], ◌∷◌, ◌++◌}
use native.Mathlib.Omega.{arith}
use hktutor.Shared.Tables.{any, count_where, update_where, All}

module _ {ℓ} {A : Type ℓ} where
  -- Rows that are counted after an update were counted before it, or are among those updated.
  pub count_where-update_where_le :
      (p w : A → Bool) (f : A → A) (xs : List A)
      → count_where p (update_where w f xs) ≤ count_where p xs + count_where w xs
  count_where-update_where_le p w f [] = omega arith
  count_where-update_where_le p w f (x ∷ xs) = ground (arith, count_where-update_where_le p w f xs)

  -- An update that makes no row count does not raise the count.
  pub count_where-update_where_mono :
      (p w : A → Bool) (f : A → A) (xs : List A)
      → ((x : A) → w x ≡ true → p (f x) ≡ true → p x ≡ true)
      → count_where p (update_where w f xs) ≤ count_where p xs
  count_where-update_where_mono p w f [] keep = omega arith
  count_where-update_where_mono p w f (x ∷ xs) keep =
      ground (arith, keep x, count_where-update_where_mono p w f xs keep)

  pub count_where-append :
      (p : A → Bool) (xs ys : List A)
      → count_where p (xs ++ ys) ≡ count_where p xs + count_where p ys
  count_where-append p [] ys = omega arith
  count_where-append p (x ∷ xs) ys = omega (arith, count_where-append p xs ys)

  pub any-append : (p : A → Bool) (xs : List A) (y : A) → any p (xs ++ y ∷ []) ≡ any p xs || p y
  any-append p [] y = ground arith
  any-append p (x ∷ xs) y = ground (arith, any-append p xs y)

  pub any-eq_false : (p : A → Bool) (xs : List A) → any p xs ≡ false → count_where p xs ≡ 0
  any-eq_false p [] h = refl
  any-eq_false p (x ∷ xs) h = ground (arith, any-eq_false p xs)

  pub update_where-none :
      (w : A → Bool) (f : A → A) (xs : List A) → count_where w xs ≡ 0 → update_where w f xs ≡ xs
  update_where-none w f [] h = refl
  update_where-none w f (x ∷ xs) h = ground (arith, update_where-none w f xs)

  -- A narrower condition counts no more rows.
  pub count_where-le :
      (v w : A → Bool) (xs : List A)
      → ((x : A) → v x ≡ true → w x ≡ true)
      → count_where v xs ≤ count_where w xs
  count_where-le v w [] h = omega arith
  count_where-le v w (x ∷ xs) h = ground (arith, h x, count_where-le v w xs h)

  -- An update of one row that stops counting lowers the count by that row.
  pub count_where-update_where_less :
      (p w : A → Bool) (f : A → A) (xs : List A)
      → ((x : A) → w x ≡ true → (p x ≡ true) × (p (f x) ≡ false))
      → count_where p (update_where w f xs) + count_where w xs ≡ count_where p xs
  count_where-update_where_less p w f [] h = omega arith
  count_where-update_where_less p w f (x ∷ xs) h =
      ground (arith, h x, count_where-update_where_less p w f xs h)

  -- An update of rows that start to count raises the count by those rows.
  pub count_where-update_where_more :
      (p w : A → Bool) (f : A → A) (xs : List A)
      → ((x : A) → w x ≡ true → (p x ≡ false) × (p (f x) ≡ true))
      → count_where p (update_where w f xs) ≡ count_where p xs + count_where w xs
  count_where-update_where_more p w f [] h = omega arith
  count_where-update_where_more p w f (x ∷ xs) h =
      ground (arith, h x, count_where-update_where_more p w f xs h)

  -- An update that leaves a test as it was leaves the count as it was.
  pub count_where-update_where_same :
      (p w : A → Bool) (f : A → A) (xs : List A)
      → ((x : A) → w x ≡ true → p (f x) ≡ p x)
      → count_where p (update_where w f xs) ≡ count_where p xs
  count_where-update_where_same p w f [] h = refl
  count_where-update_where_same p w f (x ∷ xs) h =
      ground (arith, h x, count_where-update_where_same p w f xs h)

  pub count_where_zero :
      (p : A → Bool) (xs : List A) → All (λ x. p x ≡ false) xs → count_where p xs ≡ 0
  count_where_zero p [] h = refl
  count_where_zero p (x ∷ xs) h = ground (arith, count_where_zero p xs h.1)

  -- Two tests that exclude each other and are both narrower than a third.
  pub count_where-disjoint :
      (p q r : A → Bool) (xs : List A)
      → ((x : A) → p x ≡ true → q x ≡ true → r x ≡ false)
      → ((x : A) → p x ≡ true → r x ≡ true)
      → ((x : A) → q x ≡ true → r x ≡ true)
      → count_where p xs + count_where q xs ≤ count_where r xs
  count_where-disjoint p q r [] apart left right = omega arith
  count_where-disjoint p q r (x ∷ xs) apart left right =
      ground (arith, apart x, left x, right x, count_where-disjoint p q r xs apart left right)

  -- An update that reaches all rows of a condition and makes them leave it.
  pub count_where-update_where_clear :
      (p w : A → Bool) (f : A → A) (xs : List A)
      → ((x : A) → p x ≡ true → w x ≡ true)
      → ((x : A) → w x ≡ true → p (f x) ≡ false)
      → count_where p (update_where w f xs) ≡ 0
  count_where-update_where_clear p w f [] sub clear = refl
  count_where-update_where_clear p w f (x ∷ xs) sub clear =
      ground (arith, sub x, clear x, count_where-update_where_clear p w f xs sub clear)

  -- A test that two others cover.
  pub count_where-cover :
      (p q r : A → Bool) (xs : List A)
      → ((x : A) → p x ≡ true → q x ≡ false → r x ≡ true)
      → count_where p xs ≤ count_where q xs + count_where r xs
  count_where-cover p q r [] h = omega arith
  count_where-cover p q r (x ∷ xs) h = ground (arith, h x, count_where-cover p q r xs h)
