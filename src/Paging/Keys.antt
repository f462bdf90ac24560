-- ===== src/Paging/Keys.antt =====
-- The key of a row in an order by a time and an id, and the two directions of such an order.
use hktutor.Shared.{◌==◌, ltb, Bool, arith, ◌||◌, ◌≡◌, true, ◌&&◌, false}
use hktutor.Database.Schema.{Time, Uuid}

pub record Key : Type 0 where
  pub time : Time
  pub id : Uuid

-- `{ time: { gt } }` or `{ time, id: { gt } }`, which an ascending order puts behind a cursor.
abbrev pub is_later : Key → Key → Bool
is_later cursor k = ltb cursor.time k.time || cursor.time == k.time && ltb cursor.id k.id

-- `{ time: { lt } }` or `{ time, id: { lt } }`, which a descending order puts behind a cursor.
abbrev pub is_earlier : Key → Key → Bool
is_earlier cursor k = ltb k.time cursor.time || k.time == cursor.time && ltb k.id cursor.id

-- A strict order of keys: `behind a b` where b comes after a.
pub record IsKeyOrder (behind : Key → Key → Bool) : Type 0 where
  pub trans : (a b c : Key) → behind a b ≡ true → behind b c ≡ true → behind a c ≡ true
  pub irrefl : (a : Key) → behind a a ≡ false
  pub total : (a b : Key) → behind a b ≡ false → behind b a ≡ false → a ≡ b

pub is_later-IsKeyOrder : IsKeyOrder is_later
is_later-IsKeyOrder = record {
  trans = λ a b c p q. ground arith;
  irrefl = λ a. ground arith;
  total = λ a b p q. ground arith;
}

pub is_earlier-IsKeyOrder : IsKeyOrder is_earlier
is_earlier-IsKeyOrder = record {
  trans = λ a b c p q. ground arith;
  irrefl = λ a. ground arith;
  total = λ a b p q. ground arith;
}
