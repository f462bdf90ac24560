-- ===== src/Paging/Complete.antt =====
-- Pages that follow the cursors hold every row once, in order.
use hktutor.Shared.{
  refl, [], ◌∷◌, none, some, zero, suc, inl, inr, Bool, List, ℕ, All, ◌≤◌, ◌≡◌, select, true, ◌<◌,
  Bool-cases, Option, arith, ◌++◌, ◌+◌, ap, false, ◌≢◌, sym, ◌∙◌, ltb,
}
use hktutor.Paging.Keys.{Key, IsKeyOrder}
use hktutor.Paging.Order.{
  IsDistinct, IsStrict, All-select, select_whole, select-and, select-order, order-IsStrict,
  select-select,
}
use hktutor.Paging.Pages.{
  last, length, read_rows, take, is_past, order, read_page, insert_ordered, read_all, after_page,
  append_rest,
}

module _ {A : Type 0} where
  pub All-selected : (p : A → Bool) (xs : List A) → All (λ x. p x ≡ true) (select p xs)
  All-selected p [] = tt
  All-selected p (x ∷ xs) = elim (Bool-cases (p x)) [
    | inl kept ↦ rw kept (kept, All-selected p xs)
    | inr dropped ↦ rw dropped (All-selected p xs)
  ]

  pub true_everywhere : (xs : List A) → All (λ x. true ≡ true) xs
  true_everywhere [] = tt
  true_everywhere (x ∷ xs) = (refl, true_everywhere xs)

  pub take-all : (n : ℕ) (xs : List A) → length xs ≤ n → take n xs ≡ xs
  take-all zero [] h = refl
  take-all zero (x ∷ xs) h = absurd (omega arith)
  take-all (suc n) [] h = refl
  take-all (suc n) (x ∷ xs) h = rw (take-all n xs (omega arith)) refl

  pub take-take : (n : ℕ) (xs : List A) → take n (take (suc n) xs) ≡ take n xs
  take-take zero xs = refl
  take-take (suc n) [] = refl
  take-take (suc n) (x ∷ xs) = ap (λ ys. x ∷ ys) (take-take n xs)

  pub length-take : (n : ℕ) (xs : List A) → n ≤ length xs → length (take n xs) ≡ n
  length-take zero xs h = refl
  length-take (suc n) [] h = absurd (omega arith)
  length-take (suc n) (x ∷ xs) h = omega (arith, length-take n xs (omega arith))

  pub length-append : (xs ys : List A) → length (xs ++ ys) ≡ length xs + length ys
  length-append [] ys = omega arith
  length-append (x ∷ xs) ys = omega (arith, length-append xs ys)

module _ {A : Type 0} (key : A → Key) (behind : Key → Key → Bool) (k : IsKeyOrder behind) where
  select-IsDistinct :
      (p : A → Bool) (xs : List A) → IsDistinct key behind xs → IsDistinct key behind (select p xs)
  select-IsDistinct p [] d = tt
  select-IsDistinct p (x ∷ xs) d = elim (Bool-cases (p x)) [
    | inl kept ↦ rw kept (All-select (λ b. key x ≢ key b) p xs d.0, select-IsDistinct p xs d.1)
    | inr dropped ↦ rw dropped (select-IsDistinct p xs d.1)
  ]

  select-IsStrict :
      (p : A → Bool) (xs : List A) → IsStrict key behind xs → IsStrict key behind (select p xs)
  select-IsStrict p [] d = tt
  select-IsStrict p (x ∷ xs) d = elim (Bool-cases (p x)) [
    | inl kept ↦
        rw kept (All-select (λ b. behind (key x) (key b) ≡ true) p xs d.0, select-IsStrict p xs d.1)
    | inr dropped ↦ rw dropped (select-IsStrict p xs d.1)
  ]

  -- The end of a page that is cut from ordered rows, and the rows behind it.
  record Cut (n : ℕ) (xs : List A) (x : A) : Type 1 where
    at_end : last (take n xs) ≡ some x
    rest : xs ≡ take n xs ++ select (is_past key behind (some (key x))) xs
    among : (P : A → Type 0) → All P xs → P x

  cut : (n : ℕ) (xs : List A) → IsStrict key behind xs → n < length xs → (x : A) × Cut (suc n) xs x
  cut n [] s h = absurd (omega arith)
  cut zero (y ∷ ys) s h =
      let self = k.irrefl (key y) in
      (
        y,
        record {
          at_end = refl;
          rest = rw (self, select_whole (is_past key behind (some (key y))) ys s.0) refl;
          among = λ P all. all.0;
        },
      )
  cut (suc n) (y ∷ []) s h = absurd (omega arith)
  cut (suc n) (y ∷ z ∷ zs) s h =
      let (x, c) = cut n (z ∷ zs) s.1 (omega arith) in
      let ahead : behind (key y) (key x) ≡ true =
        c.among (λ b. behind (key y) (key b) ≡ true) s.0 in
      let missed : behind (key x) (key y) ≡ false = elim (Bool-cases (behind (key x) (key y))) [
        | inl back ↦
            let loop = k.trans (key y) (key x) (key y) ahead back in
            let no_loop = k.irrefl (key y) in ground arith
        | inr fine ↦ fine
      ] in
      (
        x,
        record {
          at_end = c.at_end;
          rest = rw missed (ap (λ ys. y ∷ ys) c.rest);
          among = λ P all. c.among P all.1;
        },
      )

  module _ (where_ : A → Bool) (limit : ℕ) (table : List A) (d : IsDistinct key behind table) where
    pub rows_behind :
        (n : ℕ) (cursor : Option Key)
        → read_rows key behind where_ n cursor table
          ≡ take n (select (is_past key behind cursor) (order key behind (select where_ table)))
    unfolding read_rows
    rows_behind n cursor =
        ap (λ xs. take n (order key behind xs))
          (sym (select-and (is_past key behind cursor) where_ table))
        ∙ ap (take n) (
            select-order key behind k (is_past key behind cursor) (select where_ table)
              (select-IsDistinct where_ table d))

    ordered : IsStrict key behind (order key behind (select where_ table))
    ordered = order-IsStrict key behind k (select where_ table) (select-IsDistinct where_ table d)

    -- The last page.
    last_page :
        (xs : List A) (cursor : Option Key)
        → select (is_past key behind cursor) (order key behind (select where_ table)) ≡ xs
        → length xs ≤ limit
        → read_page key behind where_ limit cursor table ≡ record { items = xs; next_cursor = none }
    unfolding read_page
    last_page xs cursor e h =
        let rows : read_rows key behind where_ (suc limit) cursor table ≡ xs =
          rows_behind (suc limit) cursor
          ∙ ap (take (suc limit)) e
          ∙ take-all (suc limit) xs (omega arith) in
        let fits : ltb limit (length xs) ≡ false = ground arith in
        rw (rows, fits, take-all limit xs h) refl

    -- A page before the last one.
    full_page :
        (xs : List A) (cursor : Option Key) (x : A)
        → select (is_past key behind cursor) (order key behind (select where_ table)) ≡ xs
        → limit < length xs
        → last (take limit xs) ≡ some x
        → read_page key behind where_ limit cursor table
          ≡ record { items = take limit xs; next_cursor = some (key x) }
    unfolding read_page
    full_page xs cursor x e h at_end =
        let rows : read_rows key behind where_ (suc limit) cursor table ≡ take (suc limit) xs =
          rows_behind (suc limit) cursor ∙ ap (take (suc limit)) e in
        let more : ltb limit (length (take (suc limit) xs)) ≡ true =
          ground (arith, length-take (suc limit) xs (omega arith)) in
        rw (rows, more, take-take limit xs, at_end) refl

  insert_ordered-length :
      (a : A) (xs : List A) → length (insert_ordered key behind a xs) ≡ length xs + 1
  unfolding insert_ordered
  insert_ordered-length a [] = refl
  insert_ordered-length a (b ∷ rest) = elim (Bool-cases (behind (key b) (key a))) [
    | inl after ↦ rw after (omega (arith, insert_ordered-length a rest))
    | inr before ↦ rw before refl
  ]

  pub length-order : (xs : List A) → length (order key behind xs) ≡ length xs
  unfolding order
  length-order [] = refl
  length-order (a ∷ rest) =
      omega (arith, insert_ordered-length a (order key behind rest), length-order rest)

  past_trans :
      (cursor : Option Key) (x z : A)
      → is_past key behind cursor x ≡ true
      → behind (key x) (key z) ≡ true
      → is_past key behind cursor z ≡ true
  past_trans none x z h p = refl
  past_trans (some c) x z h p = k.trans c (key x) (key z) h p

  module _ (where_ : A → Bool) (l : ℕ) (table : List A) (d : IsDistinct key behind table) where
    -- Where more than `l` rows are left behind a cursor: the last of the next `suc l` rows, and the
    -- rows that are left behind it.
    pub next_rows :
        (cursor : Option Key) (xs : List A)
        → select (is_past key behind cursor) (order key behind (select where_ table)) ≡ xs
        → l < length xs
        → (x : A) × (last (take (suc l) xs) ≡ some x)
          × (xs ≡ take (suc l) xs ++ select (is_past key behind (some (key x))) xs)
          × (select (is_past key behind (some (key x))) (order key behind (select where_ table))
              ≡ select (is_past key behind (some (key x))) xs)
          × (length xs ≡ suc l + length (select (is_past key behind (some (key x))) xs))
    next_rows cursor xs e more =
        let all_rows = order key behind (select where_ table) in
        let strict : IsStrict key behind xs =
          rw (← e) (
            select-IsStrict (is_past key behind cursor) all_rows
              (ordered where_ (suc l) table d)) in
        let (x, c) = cut l xs strict more in
        let past : is_past key behind cursor x ≡ true =
          c.among (λ a. is_past key behind cursor a ≡ true)
            (rw (← e) (All-selected (is_past key behind cursor) all_rows)) in
        let behind_x : A → Bool = is_past key behind (some (key x)) in
        let later : select behind_x all_rows ≡ select behind_x xs =
          sym (
            select-select behind_x (is_past key behind cursor) all_rows
              (λ z p. past_trans cursor x z past p))
          ∙ ap (select behind_x) e in
        let sizes : length xs ≡ length (take (suc l) xs) + length (select behind_x xs) =
          ap length c.rest ∙ length-append (take (suc l) xs) (select behind_x xs) in
        (x, c.at_end, c.rest, later, omega (arith, sizes, length-take (suc l) xs (ground arith)))

    follow :
        (fuel : ℕ) (cursor : Option Key) (xs : List A)
        → select (is_past key behind cursor) (order key behind (select where_ table)) ≡ xs
        → length xs < fuel
        → read_all key behind fuel where_ (suc l) cursor table ≡ some xs
    unfolding read_all
    follow zero cursor xs e h = absurd (omega arith)
    follow (suc fuel) cursor xs e h = elim (Bool-cases (ltb (suc l) (length xs))) [
      | inr fits ↦
          let page = last_page where_ (suc l) table d xs cursor e (ground arith) in rw page refl
      | inl more ↦
          let (x, at_end, rest, later, sizes) = next_rows cursor xs e (ground arith) in
          let behind_x : A → Bool = is_past key behind (some (key x)) in
          let page = full_page where_ (suc l) table d xs cursor x e (ground arith) at_end in
          ap
            (λ p.
              after_page key behind p (λ q. read_all key behind fuel where_ (suc l) (some q) table))
            page
          ∙ ap (append_rest key behind (take (suc l) xs))
              (follow fuel (some (key x)) (select behind_x xs) later (omega (arith, sizes)))
          ∙ ap some (sym rest)
    ]

    -- A client that follows the cursors from the first page on, with a page size of at least one,
    -- comes to an end, and has read exactly the rows of the list, each one once and in order, while
    -- the table does not change.
    pub read_all_complete :
        (fuel : ℕ)
        → length (select where_ table) < fuel
        → read_all key behind fuel where_ (suc l) none table
          ≡ some (order key behind (select where_ table))
    read_all_complete fuel h =
        follow fuel none (order key behind (select where_ table))
          (select_whole (λ a. true) (order key behind (select where_ table))
            (true_everywhere (order key behind (select where_ table))))
          (omega (arith, length-order (select where_ table)))
