-- ===== src/Notifications/Frames.antt =====
-- What the reminders of one page leave in the table of notifications: `remindBooking` and the inner
-- loop of `runOnce` of reminder-job.service.ts.
use hktutor.Shared.{
  All, Bool, ◌&&◌, ◌==◌, subst, sym, refl, [], ◌∷◌, none, some, inl, inr, List, Option, ◌≡◌, ap,
  ◌+◌, arith, Bool-cases, Option-cases, any, not, select, map, true,
}
use hktutor.Database.Results.{ok, Result-cases}
use hktutor.Paging.Pages.{length}
use hktutor.Database.Schema.{Time, Notification, Uuid, Store}
use hktutor.Notifications.Run.{
  remind_page, ReminderRunResult, add_outcome, is_reminder_key, stored_reminder_keys,
}
use hktutor.Notifications.Reminders.{
  reminder_of, remind_booking, ReminderBooking, remind_locked, ReminderOutcome, plan_locked,
  write_reminders, PlannedReminder, all_stored, plan_reminders, is_key_of, insert_all, reminder_row,
}
use hktutor.Notifications.Rows.{any-insert_all}
use hktutor.Notifications.Bands.{plan_reminders-write_reminders}
use hktutor.Notifications.Events.{same_row}
use hktutor.Database.Values.{Value}
use hktutor.Database.Queries.{find_booking_with_slot}
use hktutor.Notifications.Reminders as R
use hktutor.Paging.Order.{All-weaken}

-- The tables with other notifications.
abbrev pub notified : List Notification → Store → Store
notified ns s = record s { notifications = ns }

-- What is stored stays stored.
abbrev pub Grows : List Notification → List Notification → Type 0
Grows ns ms = (p : Notification → Bool) → any p ns ≡ true → any p ms ≡ true

-- All reminders that a booking has at the time are stored.
abbrev pub IsReminded : Time → ReminderBooking → List Notification → Type 0
IsReminded now b ns = All (λ p. any (same_row p.user_id p.key) ns ≡ true) (plan_reminders b now)

pub IsReminded-grown :
    (now : Time) (b : ReminderBooking) (ns ms : List Notification)
    → Grows ns ms
    → IsReminded now b ns
    → IsReminded now b ms
IsReminded-grown now b ns ms g h =
    All-weaken (λ p. any (same_row p.user_id p.key) ns ≡ true)
      (λ p. any (same_row p.user_id p.key) ms ≡ true) (plan_reminders b now)
      (λ p. g (same_row p.user_id p.key)) h

write_reminders-frame :
    (booking : Uuid) (ps : List PlannedReminder) (s : Store)
    → (ns : List Notification) × ((write_reminders booking ps s).1 ≡ notified ns s)
      × Grows s.notifications ns
unfolding write_reminders
write_reminders-frame booking [] s = (s.notifications, refl, λ p h. h)
write_reminders-frame booking (p ∷ ps) s =
    elim (Bool-cases (any (λ q. not (is_key_of booking q.key)) (p ∷ ps))) [
      | inl foreign ↦ (s.notifications, ground arith, λ q h. h)
      | inr own ↦ (
        insert_all (map (reminder_row booking) (p ∷ ps)) s.notifications,
        ground arith,
        λ q. any-insert_all q (map (reminder_row booking) (p ∷ ps)) s.notifications,
      )
    ]

remind_locked-frame :
    (booking : Uuid) (now : Time) (refusal : Option Value) (s : Store)
    → (ns : List Notification) × ((remind_locked booking now refusal s).1 ≡ notified ns s)
      × Grows s.notifications ns
unfolding remind_locked
remind_locked-frame booking now refusal s =
    let plan = plan_locked (reminder_of s (find_booking_with_slot booking s)) now in
    let (ns, written, grows) = write_reminders-frame booking plan s in
    elim (Option-cases refusal) [
      | inr (v, refused) ↦ (s.notifications, ground arith, λ q h. h)
      | inl accepted ↦ elim (Result-cases (write_reminders booking plan s).0) [
        | inl (n, created) ↦ (ns, ground arith, grows)
        | inr (e, failed) ↦ (s.notifications, ground arith, λ q h. h)
      ]
    ]

all_stored-All :
    (rows : List Notification) (ps : List PlannedReminder)
    → all_stored rows ps ≡ true
    → All (λ p. any (same_row p.user_id p.key) rows ≡ true) ps
unfolding all_stored
all_stored-All rows [] h = tt
all_stored-All rows (p ∷ ps) h = (ground arith, all_stored-All rows ps (ground arith))

-- A booking that its transaction still finds as the scan did is reminded in it.
remind_locked-IsReminded :
    (b : ReminderBooking) (now : Time) (s : Store)
    → reminder_of s (find_booking_with_slot b.id s) ≡ some b
    → IsReminded now b (remind_locked b.id now none s).1.notifications
unfolding remind_locked plan_locked
remind_locked-IsReminded b now s found =
    let (n, t, written, left) = plan_reminders-write_reminders b now s in
    let plan : plan_locked (reminder_of s (find_booking_with_slot b.id s)) now
        ≡ plan_reminders b now =
      rw found refl in
    let stored = left.stored in
    let to : (remind_locked b.id now none s).1 ≡ t = ground arith in
    subst (λ u. IsReminded now b u.notifications) (sym to) stored

module _ (now : Time) (refusals : Uuid → Option Value) where
  -- What a reminder leaves: it never throws, writes notifications alone, and has then reminded the
  -- booking, if the database accepts it.
  remind_booking-frame :
      (b : ReminderBooking) (stored : List Notification) (refusal : Option Value) (s : Store)
      → Grows stored s.notifications
      → (r : ReminderOutcome) × (ns : List Notification) × (remind_booking b stored now refusal s
          ≡ (ok r, notified ns s))
        × Grows s.notifications ns
        × (refusal ≡ none
            → reminder_of s (find_booking_with_slot b.id s) ≡ some b
            → IsReminded now b ns)
  unfolding remind_booking
  remind_booking-frame b stored refusal s known =
      let (ns, left, grows) = remind_locked-frame b.id now refusal s in
      elim (Bool-cases (all_stored stored (plan_reminders b now))) [
        | inl present ↦ (
          record { created = 0; duplicates = R.length (plan_reminders b now); failed = 0 },
          s.notifications,
          ground arith,
          λ p h. h,
          λ accepted found.
              IsReminded-grown now b stored s.notifications known
                (all_stored-All stored (plan_reminders b now) present),
        )
        | inr absent ↦
            let reminded =
              λ (accepted : refusal ≡ none)
                  (found : reminder_of s (find_booking_with_slot b.id s) ≡ some b).
                subst (IsReminded now b) (ap (λ u. u.notifications) left) (
                  subst (λ v. IsReminded now b (remind_locked b.id now v s).1.notifications)
                    (sym accepted) (remind_locked-IsReminded b now s found)) in
            elim (Result-cases (remind_locked b.id now refusal s).0) [
              | inl (r, created) ↦ (r, ns, ground arith, grows, reminded)
              | inr (e, failed) ↦ (
                record { created = 0; duplicates = 0; failed = 1 },
                ns,
                ground arith,
                grows,
                reminded,
              )
            ]
      ]

  module _ (s : Store) where
    -- A booking of the scan, as its transaction finds it, has been reminded.
    abbrev pub IsDone : List Notification → ReminderBooking → Type 0
    IsDone ns b =
        refusals b.id ≡ none
        → reminder_of s (find_booking_with_slot b.id s) ≡ some b
        → IsReminded now b ns

    pub remind_page-frame :
        (page : List ReminderBooking) (stored : List Notification) (totals : ReminderRunResult)
        (ms : List Notification)
        → Grows stored ms
        → (r : ReminderRunResult) × (ns : List Notification) × (remind_page now refusals page stored
              totals
              (notified ms s)
            ≡ (ok r, notified ns s))
          × (r.scanned ≡ totals.scanned + length page)
          × Grows ms ns
          × All (IsDone ns) page
    unfolding remind_page reminder_of
    remind_page-frame [] stored totals ms known = (totals, ms, refl, omega arith, λ p h. h, tt)
    remind_page-frame (b ∷ bs) stored totals ms known =
        let (o, ls, first, more, done) =
          remind_booking-frame b stored (refusals b.id) (notified ms s) known in
        let (r, ns, rest, count, grows, all_done) =
          remind_page-frame bs stored (add_outcome totals o) ls (λ p h. more p (known p h)) in
        (
          r,
          ns,
          ground arith,
          omega arith,
          λ p h. grows p (more p h),
          (λ accepted found. IsReminded-grown now b ls ns grows (done accepted found), all_done),
        )

pub stored-Grows :
    (page : List ReminderBooking) (s : Store) → Grows (stored_reminder_keys page s) s.notifications
unfolding stored_reminder_keys
stored-Grows page s p h =
    any-select (λ n. any (λ b. b.id == n.booking_id) page && is_reminder_key n.key) p
      s.notifications h
  where
    any-select :
        (q p : Notification → Bool) (ns : List Notification)
        → any p (select q ns) ≡ true
        → any p ns ≡ true
    any-select q p [] h = h
    any-select q p (n ∷ ns) h = elim (Bool-cases (q n)) [
      | inl kept ↦ ground (arith, any-select q p ns)
      | inr dropped ↦ ground (arith, any-select q p ns)
    ]
