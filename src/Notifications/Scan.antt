-- ===== src/Notifications/Scan.antt =====
-- The run of the reminder job comes to an end and reminds each due booking:
-- reminder-job.service.ts.
use hktutor.Shared.{
  subst, sym, All, ◌==◌, ◌&&◌, is_none, Bool, refl, [], ◌∷◌, none, some, ℕ, zero, suc, inl, inr,
  List, Option, ◌≡◌, ap, ◌+◌, arith, Bool-cases, Option-cases, any, select, ◌<◌, ◌∙◌, count_where,
  ltb, true, false, ◌⊎◌, ◌≤◌,
}
use hktutor.Database.Results.{ok, throw, Result}
use hktutor.Paging.Pages.{length, last, order, is_past, take, read_rows}
use hktutor.Database.Schema.{Time, Notification, Uuid, Store, Booking}
use hktutor.Notifications.Run.{
  reminder_rows, ReminderRunResult, prepend, row_key, run_pages, scan_page, is_due,
  stored_reminder_keys, after_scan, run_once, after_last,
}
use hktutor.Notifications.Reminders.{reminder_of, ReminderBooking, plan_reminders}
use hktutor.Notifications.Frames.{
  notified, Grows, IsDone, IsReminded, IsReminded-grown, remind_page-frame, stored-Grows,
}
use hktutor.Notifications.Events.{same_row}
use hktutor.Notifications.Scanned.{All-join, order-All_back, rows-found}
use hktutor.Database.Values.{Value}
use hktutor.Database.Queries.{with_slot, find_booking_with_slot}
use hktutor.Paging.Order.{All-weaken, IsDistinct, length-select, select_whole}
use hktutor.Paging.Keys.{is_later, Key, is_later-IsKeyOrder}
use hktutor.Paging.Complete.{
  rows_behind, length-order, take-all, next_rows, length-take, true_everywhere,
}
use hktutor.Database.Actions.{Action}

reminder_rows-notified :
    (ns : List Notification) (s : Store) (bs : List Booking)
    → reminder_rows (notified ns s) bs ≡ reminder_rows s bs
unfolding reminder_rows reminder_of
reminder_rows-notified ns s [] = refl
reminder_rows-notified ns s (b ∷ bs) =
    ap (prepend (reminder_of s (with_slot s (some b)))) (reminder_rows-notified ns s bs)

full_or_short : (n : ℕ) → (100 ≤ n) ⊎ (n < 100)
full_or_short n = elim (Bool-cases (ltb n 100)) [
  | inl short ↦ inr (ground arith)
  | inr full ↦ inl (ground arith)
]

abbrev continue_with : {A B : Type 0} → (A → Action B) → Result A × Store → Result B × Store
continue_with f (r, t) = elim r [ ok a ↦ f a t | throw e ↦ (throw e, t) ]

-- How the loop goes on behind a page.
module _ (now : Time) (refusals : Uuid → Option Value) where
  stops :
      (page : List ReminderBooking) (totals : ReminderRunResult)
      (follow : Key → Action (Option ReminderRunResult)) (s : Store)
      → length page < 100
      → after_scan now refusals page totals follow s ≡ (ok (some totals), s)
  stops page totals follow s few =
      let short : ltb (length page) 100 ≡ true = ground (arith, few) in
      elim (Option-cases (last page)) [ inl empty ↦ ground arith | inr (b, at_end) ↦ ground arith ]

  goes_on :
      (page : List ReminderBooking) (b : ReminderBooking) (totals : ReminderRunResult)
      (follow : Key → Action (Option ReminderRunResult)) (s : Store)
      → last page ≡ some b
      → length page ≡ 100
      → after_scan now refusals page totals follow s ≡ follow (row_key b) s
  goes_on page b totals follow s at_end long =
      let full : ltb (length page) 100 ≡ false = ground (arith, long) in
      ap (λ o. after_last now refusals o (ltb (length page) 100) totals follow s) at_end
      ∙ ap (λ c. after_last now refusals (some b) c totals follow s) full

module _ (now : Time) (refusals : Uuid → Option Value) (s : Store)
    (d : IsDistinct row_key is_later (reminder_rows s s.bookings)) where
  abbrev due : List ReminderBooking
  due = order row_key is_later (select (is_due now) (reminder_rows s s.bookings))

  scanned_page :
      (ns : List Notification) (cursor : Option Key) (xs : List ReminderBooking)
      → select (is_past row_key is_later cursor) due ≡ xs
      → scan_page now cursor (notified ns s) ≡ take 100 xs
  unfolding scan_page
  scanned_page ns cursor xs e =
      ap (read_rows row_key is_later (is_due now) 100 cursor)
        (reminder_rows-notified ns s s.bookings)
      ∙ rows_behind row_key is_later is_later-IsKeyOrder (is_due now) 100
          (reminder_rows s s.bookings) d 100 cursor
      ∙ ap (take 100) e

  abbrev AllDone : List Notification → List ReminderBooking → Type 0
  AllDone ms xs = All (IsDone now refusals s ms) xs

  AllDone-grown :
      (ns ms : List Notification) (xs : List ReminderBooking)
      → Grows ns ms
      → AllDone ns xs
      → AllDone ms xs
  AllDone-grown ns ms xs grows h =
      All-weaken (IsDone now refusals s ns) (IsDone now refusals s ms) xs
        (λ b done accepted found. IsReminded-grown now b ns ms grows (done accepted found)) h

  -- A run from a cursor on.
  run_from :
      (fuel : ℕ) (ns : List Notification) (cursor : Option Key) (totals : ReminderRunResult)
      (xs : List ReminderBooking)
      → select (is_past row_key is_later cursor) due ≡ xs
      → length xs < fuel
      → (r : ReminderRunResult) × (ms : List Notification) × (run_pages now refusals fuel cursor
            totals
            (notified ns s)
          ≡ (ok (some r), notified ms s))
        × (r.scanned ≡ totals.scanned + length xs)
        × Grows ns ms
        × AllDone ms xs
  unfolding run_pages
  run_from zero ns cursor totals xs e h = absurd (omega arith)
  run_from (suc fuel) ns cursor totals xs e h =
      let page = scan_page now cursor (notified ns s) in
      let is_page = scanned_page ns cursor xs e in
      let stored = stored_reminder_keys page (notified ns s) in
      let (o, ms, reminded, count, grows, done) =
        remind_page-frame now refusals s page stored totals ns
          (stored-Grows page (notified ns s)) in
      let st = notified ms s in
      let start : run_pages now refusals (suc fuel) cursor totals (notified ns s)
          ≡ after_scan now refusals page o (λ k. run_pages now refusals fuel (some k) o) st =
        ap
          (continue_with
            (λ q. after_scan now refusals page q (λ k. run_pages now refusals fuel (some k) q)))
          reminded in
      let step =
        start
        ∙ ap (λ q. after_scan now refusals q o (λ k. run_pages now refusals fuel (some k) o) st)
            is_page in
      elim (full_or_short (length xs)) [
        | inr short ↦
            let whole = take-all 100 xs (omega (arith, short)) in
            (
              o,
              ms,
              step
                  ∙ ap
                      (λ q.
                        after_scan now refusals q o (λ k. run_pages now refusals fuel (some k) o)
                          st)
                      whole
                  ∙ stops now refusals xs o (λ k. run_pages now refusals fuel (some k) o) st short,
              count ∙ ap (λ q. totals.scanned + length q) (is_page ∙ whole),
              grows,
              subst (AllDone ms) (is_page ∙ whole) done,
            )
        | inl full ↦
            let (x, at_end, split, later, sizes) =
              next_rows row_key is_later is_later-IsKeyOrder (is_due now) 99
                (reminder_rows s s.bookings) d cursor xs e (omega arith) in
            let behind_x = is_past row_key is_later (some (row_key x)) in
            let left : length xs ≡ 100 + length (select behind_x xs) = sizes in
            let long = length-take 100 xs full in
            let (r, ls, ran, scanned, more, all_done) =
              run_from fuel ms (some (row_key x)) o (select behind_x xs) later
                (omega (arith, left, h)) in
            (
              r,
              ls,
              step
                  ∙ goes_on now refusals (take 100 xs) x o
                      (λ k. run_pages now refusals fuel (some k) o) st at_end long
                  ∙ ran,
              omega (arith, count, ap length is_page, long, left, scanned),
              λ p h. more p (grows p h),
              subst (AllDone ls) (sym split) (
                  All-join (IsDone now refusals s ls) (take 100 xs) (select behind_x xs)
                    (AllDone-grown ms ls (take 100 xs) more (subst (AllDone ms) is_page done))
                    all_done),
            )
      ]

  -- The due bookings whose transaction the database accepts.
  abbrev is_reached : ReminderBooking → Bool
  is_reached b = is_due now b && is_none (refusals b.id)

  All-reached :
      (ns : List Notification) (bs : List ReminderBooking)
      → All (λ b. reminder_of s (find_booking_with_slot b.id s) ≡ some b) bs
      → AllDone ns (select (is_due now) bs)
      → All (λ b. IsReminded now b ns) (select is_reached bs)
  All-reached ns [] same done = tt
  All-reached ns (b ∷ bs) same done = elim (Bool-cases (is_due now b)) [
    | inr early ↦ rw early (All-reached ns bs same.1 (rw early at done))
    | inl due_now ↦
        let both : AllDone ns (b ∷ select (is_due now) bs) = rw due_now at done in
        let rest = All-reached ns bs same.1 both.1 in
        elim (Option-cases (refusals b.id)) [
          | inr (v, refused) ↦ rw (due_now, refused) rest
          | inl accepted ↦ rw (due_now, accepted) (both.0 accepted same.0, rest)
        ]
  ]

  -- A run of the reminder job that nothing interleaves with comes to an end, with a page more than
  -- there are due bookings, also where the database refuses any of the bookings' transactions. It has
  -- then scanned as many bookings as are confirmed and begin within the next 24 hours, has written
  -- nothing but notifications, and has reminded each of these bookings that the database accepts: all
  -- reminders that are planned for it at the time are stored for their users. The ids of the bookings
  -- are distinct, and so are the keys of a time and an id by which the rows are read.
  pub run_once_ends :
      (fuel : ℕ)
      → ((i : Uuid) → count_where (λ b. b.id == i) s.bookings ≤ 1)
      → count_where (is_due now) (reminder_rows s s.bookings) < fuel
      → (r : ReminderRunResult) × (ns : List Notification) × (run_once now refusals fuel s
          ≡ (ok (some r), notified ns s))
        × (r.scanned ≡ count_where (is_due now) (reminder_rows s s.bookings))
        × All
            (λ b. All (λ p. any (same_row p.user_id p.key) ns ≡ true) (plan_reminders b now))
            (select (λ b. is_due now b && is_none (refusals b.id)) (reminder_rows s s.bookings))
  unfolding run_once
  run_once_ends fuel unique enough =
      let rows = reminder_rows s s.bookings in
      let size : length due ≡ count_where (is_due now) rows =
        length-order row_key is_later is_later-IsKeyOrder (select (is_due now) rows)
        ∙ length-select (is_due now) rows in
      let (r, ns, ran, count, grows, done) =
        run_from fuel s.notifications none
          (record { scanned = 0; created = 0; duplicates = 0; failed = 0 }) due
          (select_whole (λ b. true) due (true_everywhere due)) (omega arith) in
      (
        r,
        ns,
        ran,
        omega arith,
        All-reached ns rows (rows-found s unique)
            (order-All_back (IsDone now refusals s ns) (select (is_due now) rows) done),
      )
