-- ===== src/Paging/Order.antt =====
-- Ordered rows, and the rows behind a cursor among them.
use hktutor.Shared.{
  refl, [], ◌∷◌, inl, inr, Bool, List, All, select, ◌≡◌, Bool-cases, false, true, ◌&&◌, ◌≢◌, arith,
  if◌then◌else◌, sym, count_where,
}
use hktutor.Paging.Keys.{Key, IsKeyOrder}
use hktutor.Paging.Pages.{insert_ordered, order, length}

module _ {A : Type 0} (key : A → Key) (behind : Key → Key → Bool) where
  -- No two rows have one key.
  abbrev pub IsDistinct : List A → Type 0
  IsDistinct [] = Unit
  IsDistinct (a ∷ rest) = All (λ b. key a ≢ key b) rest × IsDistinct rest

  -- Each row stands strictly before those that follow it.
  abbrev pub IsStrict : List A → Type 0
  IsStrict [] = Unit
  IsStrict (a ∷ rest) = All (λ b. behind (key a) (key b) ≡ true) rest × IsStrict rest

module _ {A : Type 0} where
  pub All-weaken {κ μ} :
      (P : A → Type κ) (Q : A → Type μ) (xs : List A) → ((x : A) → P x → Q x) → All P xs → All Q xs
  All-weaken P Q [] f h = tt
  All-weaken P Q (x ∷ xs) f h = (f x h.0, All-weaken P Q xs f h.1)

  pub All-select {κ} :
      (P : A → Type κ) (p : A → Bool) (xs : List A) → All P xs → All P (select p xs)
  All-select P p [] h = tt
  All-select P p (x ∷ xs) h = elim (Bool-cases (p x)) [
    | inl kept ↦ rw kept (h.0, All-select P p xs h.1)
    | inr dropped ↦ rw dropped (All-select P p xs h.1)
  ]

  pub length-select : (p : A → Bool) (xs : List A) → length (select p xs) ≡ count_where p xs
  length-select p [] = refl
  length-select p (x ∷ xs) = ground (arith, length-select p xs)

  -- A condition that all rows meet, or none.
  pub select_whole : (p : A → Bool) (xs : List A) → All (λ x. p x ≡ true) xs → select p xs ≡ xs
  select_whole p [] h = refl
  select_whole p (x ∷ xs) h = rw (h.0, select_whole p xs h.1) refl

  pub select-none : (p : A → Bool) (xs : List A) → All (λ x. p x ≡ false) xs → select p xs ≡ []
  select-none p [] h = refl
  select-none p (x ∷ xs) h = rw (h.0, select-none p xs h.1) refl

  -- A condition that is narrower than another selects alike behind it.
  pub select-select :
      (p q : A → Bool) (xs : List A)
      → ((x : A) → p x ≡ true → q x ≡ true)
      → select p (select q xs) ≡ select p xs
  select-select p q [] sub = refl
  select-select p q (x ∷ xs) sub = elim (Bool-cases (q x)) [
    | inl kept ↦ rw (kept, select-select p q xs sub) refl
    | inr dropped ↦
        let missed : p x ≡ false = ground (arith, sub x) in
        rw (dropped, missed) (select-select p q xs sub)
  ]

  pub select-and :
      (p q : A → Bool) (xs : List A) → select p (select q xs) ≡ select (λ x. q x && p x) xs
  select-and p q [] = refl
  select-and p q (x ∷ xs) = elim (Bool-cases (q x)) [
    | inl kept ↦ rw (kept, select-and p q xs) refl
    | inr dropped ↦ rw dropped (select-and p q xs)
  ]

module _ {A : Type 0} (key : A → Key) (behind : Key → Key → Bool) (k : IsKeyOrder behind) where
  insert_ordered-All {κ} :
      (P : A → Type κ) (a : A) (xs : List A)
      → P a
      → All P xs
      → All P (insert_ordered key behind a xs)
  unfolding insert_ordered
  insert_ordered-All P a [] p h = (p, tt)
  insert_ordered-All P a (b ∷ rest) p h = elim (Bool-cases (behind (key b) (key a))) [
    | inl after ↦ rw after (h.0, insert_ordered-All P a rest p h.1)
    | inr before ↦ rw before (p, h)
  ]

  pub order-All {κ} : (P : A → Type κ) (xs : List A) → All P xs → All P (order key behind xs)
  unfolding order
  order-All P [] h = tt
  order-All P (a ∷ rest) h =
      insert_ordered-All P a (order key behind rest) h.0 (order-All P rest h.1)

  -- A row that is not behind the first of ordered rows stands before them all.
  ahead_of_rest :
      (a b : A) (rest : List A)
      → All (λ c. key a ≢ key c) (b ∷ rest)
      → IsStrict key behind (b ∷ rest)
      → behind (key b) (key a) ≡ false
      → All (λ c. behind (key a) (key c) ≡ true) (b ∷ rest)
  ahead_of_rest a b rest d h before =
      let ahead : behind (key a) (key b) ≡ true = elim (Bool-cases (behind (key a) (key b))) [
        | inl kept ↦ kept
        | inr dropped ↦ elim (d.0 (k.total (key a) (key b) dropped before)) [ ]
      ] in
      (
        ahead,
        All-weaken (λ c. behind (key b) (key c) ≡ true) (λ c. behind (key a) (key c) ≡ true) rest
            (λ c later. k.trans (key a) (key b) (key c) ahead later) h.0,
      )

  insert_ordered-IsStrict :
      (a : A) (xs : List A)
      → All (λ b. key a ≢ key b) xs
      → IsStrict key behind xs
      → IsStrict key behind (insert_ordered key behind a xs)
  unfolding insert_ordered
  insert_ordered-IsStrict a [] d h = (tt, tt)
  insert_ordered-IsStrict a (b ∷ rest) d h = elim (Bool-cases (behind (key b) (key a))) [
    | inl after ↦ rw after (
      insert_ordered-All (λ c. behind (key b) (key c) ≡ true) a rest after h.0,
      insert_ordered-IsStrict a rest d.1 h.1,
    )
    | inr before ↦ rw before (ahead_of_rest a b rest d h before, h)
  ]

  pub order-IsStrict :
      (xs : List A) → IsDistinct key behind xs → IsStrict key behind (order key behind xs)
  unfolding order
  order-IsStrict [] d = tt
  order-IsStrict (a ∷ rest) d =
      insert_ordered-IsStrict a (order key behind rest) (order-All (λ b. key a ≢ key b) rest d.0)
        (order-IsStrict rest d.1)

  -- A row that stands before all others is inserted at the front.
  insert_ordered-front :
      (a : A) (xs : List A)
      → All (λ b. behind (key a) (key b) ≡ true) xs
      → insert_ordered key behind a xs ≡ a ∷ xs
  unfolding insert_ordered
  insert_ordered-front a [] h = refl
  insert_ordered-front a (b ∷ rest) h = elim (Bool-cases (behind (key b) (key a))) [
    | inl after ↦
        let loop = k.trans (key a) (key b) (key a) h.0 after in
        let no_loop = k.irrefl (key a) in ground arith
    | inr before ↦ rw before refl
  ]

  insert_ordered-select :
      (p : A → Bool) (a : A) (xs : List A)
      → All (λ b. key a ≢ key b) xs
      → IsStrict key behind xs
      → select p (insert_ordered key behind a xs)
        ≡ (if p a then insert_ordered key behind a (select p xs) else select p xs)
  unfolding insert_ordered
  insert_ordered-select p a [] d h = ground arith
  insert_ordered-select p a (b ∷ rest) d h = elim (Bool-cases (behind (key b) (key a))) [
    | inl after ↦
        let ih = insert_ordered-select p a rest d.1 h.1 in
        elim (Bool-cases (p b)) [
          | inl kept ↦ elim (Bool-cases (p a)) [
            | inl own ↦ rw (after, kept, ih, own, after) refl
            | inr other ↦ rw (after, kept, ih, other) refl
          ]
          | inr dropped ↦ rw (after, dropped) ih
        ]
    | inr before ↦
        let front = insert_ordered-front a (select p (b ∷ rest)) (
          All-select (λ c. behind (key a) (key c) ≡ true) p (b ∷ rest)
            (ahead_of_rest a b rest d h before)) in
        elim (Bool-cases (p a)) [
          | inl own ↦ rw (before, own) (sym front)
          | inr other ↦ rw (before, other) refl
        ]
  ]

  -- To order and to select commute.
  pub select-order :
      (p : A → Bool) (xs : List A)
      → IsDistinct key behind xs
      → order key behind (select p xs) ≡ select p (order key behind xs)
  unfolding order
  select-order p [] d = refl
  select-order p (a ∷ rest) d =
      let step =
        insert_ordered-select p a (order key behind rest) (order-All (λ b. key a ≢ key b) rest d.0)
          (order-IsStrict rest d.1) in
      elim (Bool-cases (p a)) [
        | inl kept ↦ rw (step, kept, select-order p rest d.1) refl
        | inr dropped ↦ rw (step, dropped, select-order p rest d.1) refl
      ]
