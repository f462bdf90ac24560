-- ===== src/Notifications/Rows.antt =====
-- The rows of the table of notifications, under its unique key of a user and an event.
use hktutor.Shared.{
  false, ◌+◌, ◌++◌, refl, inl, inr, [], Bool, List, All, any, ◌≡◌, count_where, true, ℕ, arith, ◌∷◌,
  ==_self, Bool-cases, map, not, count_where-append, any-append,
}
use hktutor.Database.Schema.{event_key, reminder_key, Uuid, EventKey, Notification, Store}
use hktutor.Notifications.Events.{insert_new, same_key, same_row, type_code, band_code, kind_code}
use hktutor.Notifications.Reminders.{
  count_new, insert_all, PlannedReminder, write_reminders, reminder_row, is_key_of,
}
use hktutor.Database.Results.{ok}

same_key_self : (k : EventKey) → same_key k k ≡ true
unfolding same_key
same_key_self (event_key t i) = ground (arith, ==_self (type_code t), ==_self i)
same_key_self (reminder_key b i t d k) =
    ground (arith, ==_self b, ==_self i, ==_self t, ==_self (band_code d), ==_self (kind_code k))

pub same_key_join :
    (x y k : EventKey) → same_key x k ≡ true → same_key y k ≡ true → same_key x y ≡ true
unfolding same_key
same_key_join (event_key t i) (event_key u j) (event_key v l) p q = ground arith
same_key_join (event_key t i) (event_key u j) (reminder_key c l v e m) p q = ground arith
same_key_join (event_key t i) (reminder_key b j u d n) (event_key v l) p q = ground arith
same_key_join (event_key t i) (reminder_key b j u d n) (reminder_key c l v e m) p q = ground arith
same_key_join (reminder_key b i t d k) y (event_key v l) p q = ground arith
same_key_join (reminder_key b i t d k) (event_key u j) (reminder_key c l v e m) p q = ground arith
same_key_join (reminder_key b i t d k) (reminder_key a j u f n) (reminder_key c l v e m) p q =
    ground arith

same_row_self : (n : Notification) → same_row n.user_id n.key n ≡ true
unfolding same_row
same_row_self n = ground (arith, ==_self n.user_id, same_key_self n.key)

-- A row that is stored stays, and a row that is inserted is stored.
any-insert_new :
    (p : Notification → Bool) (n : Notification) (rows : List Notification)
    → any p rows ≡ true
    → any p (insert_new n rows) ≡ true
unfolding insert_new
any-insert_new p n rows h = ground (arith, any-append p rows n)

pub any-insert_all :
    (p : Notification → Bool) (ns rows : List Notification)
    → any p rows ≡ true
    → any p (insert_all ns rows) ≡ true
unfolding insert_all
any-insert_all p [] rows h = h
any-insert_all p (n ∷ ns) rows h =
    any-insert_all p ns (insert_new n rows) (any-insert_new p n rows h)

pub insert_new-stored :
    (n : Notification) (rows : List Notification)
    → any (same_row n.user_id n.key) (insert_new n rows) ≡ true
unfolding insert_new
insert_new-stored n rows =
    ground (arith, any-append (same_row n.user_id n.key) rows n, same_row_self n)

insert_all-stored :
    (ns rows : List Notification)
    → All (λ n. any (same_row n.user_id n.key) (insert_all ns rows) ≡ true) ns
unfolding insert_all
insert_all-stored [] rows = tt
insert_all-stored (n ∷ ns) rows = (
  any-insert_all (same_row n.user_id n.key) ns (insert_new n rows) (insert_new-stored n rows),
  insert_all-stored ns (insert_new n rows),
)

insert_new-present :
    (n : Notification) (rows : List Notification)
    → any (same_row n.user_id n.key) rows ≡ true
    → insert_new n rows ≡ rows
unfolding insert_new
insert_new-present n rows h = rw h refl

insert_all-present :
    (ns rows : List Notification)
    → All (λ n. any (same_row n.user_id n.key) rows ≡ true) ns
    → (count_new ns rows ≡ 0) × (insert_all ns rows ≡ rows)
unfolding count_new insert_all
insert_all-present [] rows h = (refl, refl)
insert_all-present (n ∷ ns) rows (p, h) =
    let same = insert_new-present n rows p in
    let (none_new, kept) = insert_all-present ns rows h in
    (rw p (omega (arith, none_new)), rw same kept)

all_rows-insert_all :
    (ns rows : List Notification)
    → count_where (λ _. true) (insert_all ns rows)
      ≡ count_where (λ _. true) rows + count_new ns rows
unfolding insert_all count_new insert_new
all_rows-insert_all [] rows = omega arith
all_rows-insert_all (n ∷ ns) rows = elim (Bool-cases (any (same_row n.user_id n.key) rows)) [
  | inl present ↦ rw present (omega (arith, all_rows-insert_all ns rows))
  | inr absent ↦ rw absent (
      omega (
        arith,
        all_rows-insert_all ns (rows ++ n ∷ []),
        count_where-append (λ _. true) rows (n ∷ []),
      ))
]

rows-stored :
    (booking : Uuid) (ps : List PlannedReminder) (rows : List Notification)
    → All (λ n. any (same_row n.user_id n.key) rows ≡ true) (map (reminder_row booking) ps)
    → All (λ p. any (same_row p.user_id p.key) rows ≡ true) ps
rows-stored booking [] rows h = tt
rows-stored booking (p ∷ ps) rows h = (h.0, rows-stored booking ps rows h.1)

-- The table of a run in which the reminders `ps` were written, `n` of them anew.
pub record AreWritten (ps : List PlannedReminder) (n : ℕ) (s t : Store) : Type 0 where
  pub stored : All (λ p. any (same_row p.user_id p.key) t.notifications ≡ true) ps
  pub grown : count_where (λ _. true) t.notifications ≡ count_where (λ _. true) s.notifications + n
  pub kept : (p : Notification → Bool) → any p s.notifications ≡ true → any p t.notifications ≡ true
  pub framed : t ≡ record s { notifications = t.notifications }

pub write_reminders-AreWritten :
    (booking : Uuid) (ps : List PlannedReminder) (s : Store)
    → any (λ q. not (is_key_of booking q.key)) ps ≡ false
    → (n : ℕ) × (t : Store) × (write_reminders booking ps s ≡ (ok n, t)) × AreWritten ps n s t
unfolding write_reminders
write_reminders-AreWritten booking [] s own =
    (0, s, refl, record { stored = tt; grown = omega arith; kept = λ p h. h; framed = refl })
write_reminders-AreWritten booking (p ∷ ps) s own =
    let ns = map (reminder_row booking) (p ∷ ps) in
    (
      count_new ns s.notifications,
      record s { notifications = insert_all ns s.notifications },
      rw own refl,
      record {
        stored =
            rows-stored booking (p ∷ ps) (insert_all ns s.notifications)
              (insert_all-stored ns s.notifications);
        grown = all_rows-insert_all ns s.notifications;
        kept = λ q h. any-insert_all q ns s.notifications h;
        framed = refl;
      },
    )

-- The reminders of a booking are written once: to write the same ones again, as a second run of the
-- job does, creates no row and changes nothing.
pub write_reminders-again :
    (booking : Uuid) (ps : List PlannedReminder) (s t : Store) {n : ℕ}
    → write_reminders booking ps s ≡ (ok n, t)
    → write_reminders booking ps t ≡ (ok 0, t)
unfolding write_reminders
write_reminders-again booking [] s t {n} h = ground arith
write_reminders-again booking (p ∷ ps) s t {n} h =
    let ns = map (reminder_row booking) (p ∷ ps) in
    let (zero, same) =
      insert_all-present ns (insert_all ns s.notifications)
        (insert_all-stored ns s.notifications) in
    elim (Bool-cases (any (λ q. not (is_key_of booking q.key)) (p ∷ ps))) [
      | inl foreign ↦ ground arith
      | inr own ↦
          let saved : t ≡ record s { notifications = insert_all ns s.notifications } =
            ground arith in
          rw (saved, own) (ground (arith, zero, same))
    ]
