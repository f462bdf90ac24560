-- ===== src/Paging/Pages.antt =====
-- `findMany` with `where`, `orderBy` and `take`, and the pages that follow one another.
use hktutor.Shared.{
  ltb, ◌∷◌, [], none, some, zero, suc, List, ℕ, Bool, Option, ◌+◌, if◌then◌else◌, select, true,
  ◌++◌, ◌&&◌,
}
use hktutor.Paging.Keys.{Key}

module _ {A : Type 0} where
  abbrev pub length : List A → ℕ
  length [] = 0
  length (_ ∷ xs) = length xs + 1

  abbrev pub take : ℕ → List A → List A
  take zero xs = []
  take (suc n) [] = []
  take (suc n) (x ∷ xs) = x ∷ take n xs

  -- `page.at(-1)`
  abbrev pub last : List A → Option A
  last [] = none
  last (x ∷ []) = some x
  last (x ∷ y ∷ ys) = last (y ∷ ys)

pub record Page (A : Type 0) : Type 0 where
  pub items : List A
  pub next_cursor : Option Key

module _ {A : Type 0} (key : A → Key) (behind : Key → Key → Bool) where
  unfoldable pub insert_ordered : A → List A → List A
  insert_ordered a [] = a ∷ []
  insert_ordered a (b ∷ rest) =
      let later = insert_ordered a rest in
      if behind (key b) (key a) then b ∷ later else a ∷ b ∷ rest

  -- `orderBy`
  unfoldable pub order : List A → List A
  unfolding insert_ordered
  order [] = []
  order (a ∷ rest) = insert_ordered a (order rest)

  -- The condition that a cursor adds to the `where`.
  abbrev pub is_past : Option Key → A → Bool
  is_past none a = true
  is_past (some k) a = behind k (key a)

  -- One row more than the page holds, behind the cursor.
  unfoldable pub read_rows : (A → Bool) → ℕ → Option Key → List A → List A
  unfolding order
  read_rows where_ n cursor rows = take n (order (select (λ a. where_ a && is_past cursor a) rows))

  abbrev pub key_of : Option A → Option Key
  key_of none = none
  key_of (some a) = some (key a)

  -- The page, and the cursor of the next one where a further row was read.
  unfoldable pub read_page : (A → Bool) → ℕ → Option Key → List A → Page A
  unfolding read_rows
  read_page where_ limit cursor table =
      let rows = read_rows where_ (suc limit) cursor table in
      let items = take limit rows in
      record {
        items = items;
        next_cursor = if ltb limit (length rows) then key_of (last items) else none;
      }

  abbrev pub append_rest : List A → Option (List A) → Option (List A)
  append_rest items none = none
  append_rest items (some rest) = some (items ++ rest)

  abbrev pub after_page : Page A → (Key → Option (List A)) → Option (List A)
  after_page page follow = elim page.next_cursor [
    | none ↦ some page.items
    | some k ↦ append_rest page.items (follow k)
  ]

  -- A client that follows the cursors: `none` where the fuel runs out.
  unfoldable pub read_all : ℕ → (A → Bool) → ℕ → Option Key → List A → Option (List A)
  unfolding read_page
  read_all zero where_ limit cursor table = none
  read_all (suc fuel) where_ limit cursor table =
      after_page (read_page where_ limit cursor table)
        (λ k. read_all fuel where_ limit (some k) table)
