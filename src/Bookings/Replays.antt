-- ===== src/Bookings/Replays.antt =====
-- The second report of an attendance: `updateAttendance`.
use hktutor.Shared.{
  [], ◌∷◌, inl, inr, refl, some, none, Option, count_where, ◌≡◌, false, ◌≤◌, if◌then◌else◌, true,
  arith, ==_self, count_where_miss, update_where-none, ◌==◌, Bool, List, Option-cases, Bool-cases,
  ap, find, update_where, ◌∙◌, find-update_where, ==→eq, sym, ◌!=◌,
}
use hktutor.Database.Enums.{
  BookingStatus, AttendanceStatus, paid, same_attendance, PaymentStatus, is_completed, is_paid,
}
use hktutor.Bookings.Attendance.{
  AttendanceRequest, update_attendance, is_unrecorded, record_attendance, save_attendance,
  attendance_row, AttendanceResponse, attendance_response, recorded_response,
}
use hktutor.Database.Schema.{Time, Store, Booking, AvailabilitySlot}
use hktutor.Database.Values.{Value}
use hktutor.Database.Queries.{find_booking_with_slot, find_booking, find_slot, with_slot}
use hktutor.System.Invariant.{IsConsistent}
use hktutor.Database.Results.{ok, throw}
use hktutor.Database.Exceptions.{attendance_already_recorded}

update_attendance-replay :
    (input : AttendanceRequest) (now at : Time) (seen s : Store) (b : Booking)
    (slot : AvailabilitySlot) (recorded : AttendanceStatus)
    → find_booking_with_slot input.booking_id seen ≡ some (b, slot)
    → b.tutor_profile_id ≡ input.tutor_id
    → b.payment_pending ≡ false
    → b.payment_status ≡ paid
    → b.status ≡ BookingStatus.completed
    → b.attendance ≡ some recorded
    → b.attendance_marked_at ≡ some at
    → slot.end_at ≤ now
    → update_attendance input now seen none s ≡ (
      if same_attendance recorded input.attendance
          then ok (record {
            attendance = recorded;
            attendance_marked_at = at;
            booking_id = b.id;
            idempotent_replay = true;
            status = BookingStatus.completed;
          })
          else throw (attendance_already_recorded recorded),
      s,
    )
unfolding update_attendance
update_attendance-replay input now at seen s b slot recorded found own free paid_for done value time
      ended =
    ground (arith, ==_self input.tutor_id)

update_attendance-missed :
    (input : AttendanceRequest) (now : Time) (seen s : Store) (refusal : Option Value)
    → count_where (is_unrecorded input now s) s.bookings ≡ 0
    → (update_attendance input now seen refusal s).1 ≡ s
unfolding update_attendance record_attendance save_attendance
update_attendance-missed input now seen s refusal h =
    let same =
      update_where-none (is_unrecorded input now s) (attendance_row input now) s.bookings h in
    ground arith

-- A recorded attendance is never written over: in consistent tables, where the booking's row has
-- one, a report changes nothing, whatever its value is and whatever it had read before.
pub update_attendance-once :
    (input : AttendanceRequest) (now : Time) (seen s : Store) (refusal : Option Value) (b : Booking)
    (recorded : AttendanceStatus)
    → IsConsistent s
    → find_booking input.booking_id s ≡ some b
    → b.attendance ≡ some recorded
    → (update_attendance input now seen refusal s).1 ≡ s
update_attendance-once input now seen s refusal b recorded c found value =
    update_attendance-missed input now seen s refusal (
      count_where_miss (λ x. x.id == input.booking_id) (is_unrecorded input now s) s.bookings found
        (rw value refl) (c.booking_ids input.booking_id) (λ x h. ground arith))

is_paid-eq : (p : PaymentStatus) → is_paid p ≡ true → p ≡ paid
is_paid-eq p h = ground arith

-- What the first report of an attendance has left.
record Recorded (input : AttendanceRequest) (now : Time) (s t : Store) (r : AttendanceResponse)
    : Type 0 where
  booking : Booking
  slot : AvailabilitySlot
  found : find_booking_with_slot input.booking_id t ≡ some (booking, slot)
  own : booking.tutor_profile_id ≡ input.tutor_id
  free : booking.payment_pending ≡ false
  paid_for : booking.payment_status ≡ paid
  done : booking.status ≡ BookingStatus.completed
  value : booking.attendance ≡ some r.attendance
  time : booking.attendance_marked_at ≡ some r.attendance_marked_at
  ended : slot.end_at ≤ now
  id : booking.id ≡ r.booking_id

none_counted :
    {A : Type 0} (v w : A → Bool) (xs : List A)
    → find v xs ≡ none
    → ((x : A) → w x ≡ true → v x ≡ true)
    → count_where w xs ≡ 0
none_counted v w [] h sub = refl
none_counted v w (x ∷ xs) h sub = elim (Bool-cases (v x)) [
  | inl fits ↦ absurd (ground arith)
  | inr other ↦ ground (arith, sub x, none_counted v w xs (rw other at h) sub)
]

-- The one row that a report is recorded in.
unrecorded_row :
    (input : AttendanceRequest) (now : Time) (s : Store)
    → IsConsistent s
    → count_where (is_unrecorded input now s) s.bookings ≡ 1
    → (b : Booking) × (slot : AvailabilitySlot) × (find_booking input.booking_id s ≡ some b)
      × (find_slot b.slot_id s ≡ some slot)
      × (is_unrecorded input now s b ≡ true)
      × (slot.end_at ≤ now)
unrecorded_row input now s c one = elim (Option-cases (find_booking input.booking_id s)) [
  | inl missing ↦
      let zero =
        none_counted (λ x. x.id == input.booking_id) (is_unrecorded input now s) s.bookings missing
          (λ x h. ground arith) in
      absurd (omega arith)
  | inr (b, found) ↦ elim (Bool-cases (is_unrecorded input now s b)) [
    | inr miss ↦
        let zero =
          count_where_miss (λ x. x.id == input.booking_id) (is_unrecorded input now s) s.bookings
            found miss (c.booking_ids input.booking_id) (λ x h. ground arith) in
        absurd (omega arith)
    | inl hit ↦ elim (Option-cases (find_slot b.slot_id s)) [
      | inl nowhere ↦ absurd (ground arith)
      | inr (slot, there) ↦ (b, slot, found, there, hit, ground arith)
    ]
  ]
]

attendance_response-replay :
    (b : Booking) (requested : AttendanceStatus) (replay : Bool) {r : AttendanceResponse}
    → attendance_response b requested replay ≡ ok r
    → r.idempotent_replay ≡ replay
unfolding attendance_response recorded_response
attendance_response-replay b requested replay {r} h = elim (Option-cases b.attendance) [
  | inl missing ↦ absurd (ground arith)
  | inr (a, value) ↦ elim (Option-cases b.attendance_marked_at) [
    | inl missing ↦ absurd (ground arith)
    | inr (at, time) ↦ ground arith
  ]
]

save_attendance-first :
    (input : AttendanceRequest) (now : Time) (w : Booking → Bool) (s t : Store)
    {r : AttendanceResponse}
    → save_attendance input now w s ≡ (ok r, t)
    → r.idempotent_replay ≡ false
    → (count_where w s.bookings ≡ 1)
      × (t ≡ record s { bookings = update_where w (attendance_row input now) s.bookings })
      × ((current : Booking) × (find_booking input.booking_id t ≡ some current)
          × (attendance_response current input.attendance false ≡ ok r))
unfolding save_attendance
save_attendance-first input now w s t {r} h first =
    let u : Store = record s { bookings = update_where w (attendance_row input now) s.bookings } in
    elim (Option-cases (find_booking input.booking_id u)) [
      | inl missing ↦ absurd (ground arith)
      | inr (current, read) ↦
          let left : t ≡ u = ground arith in
          let said : attendance_response current input.attendance (count_where w s.bookings != 1)
              ≡ ok r =
            ground arith in
          let flag : (count_where w s.bookings != 1) ≡ false =
            sym (
              attendance_response-replay current input.attendance (count_where w s.bookings != 1)
                said)
            ∙ first in
          (
            ground arith,
            left,
            (
              current,
              ap (find_booking input.booking_id) left ∙ read,
              ap (λ f. attendance_response current input.attendance f) (sym flag) ∙ said,
            ),
          )
    ]

-- A report that is no replay has found one row to record in.
update_attendance-first :
    (input : AttendanceRequest) (now : Time) (seen s t : Store) (refusal : Option Value)
    {r : AttendanceResponse}
    → update_attendance input now seen refusal s ≡ (ok r, t)
    → r.idempotent_replay ≡ false
    → (count_where (is_unrecorded input now s) s.bookings ≡ 1)
      × (t ≡ record s {
        bookings = update_where (is_unrecorded input now s) (attendance_row input now) s.bookings;
      })
      × ((current : Booking) × (find_booking input.booking_id t ≡ some current)
          × (attendance_response current input.attendance false ≡ ok r))
unfolding update_attendance record_attendance
update_attendance-first input now seen s t refusal {r} h first = elim (Option-cases refusal) [
  | inr (v, refused) ↦ absurd (ground arith)
  | inl accepted ↦ elim (Option-cases (find_booking_with_slot input.booking_id seen)) [
    | inl missing ↦ absurd (ground arith)
    | inr ((b, slot), found) ↦ elim (Bool-cases (is_completed b.status)) [
      | inl done ↦
          let said : attendance_response b input.attendance true ≡ ok r = ground arith in
          absurd (ground (arith, attendance_response-replay b input.attendance true said))
      | inr undone ↦
          save_attendance-first input now (is_unrecorded input now s) s t (ground arith) first
    ]
  ]
]

update_attendance-Recorded :
    (input : AttendanceRequest) (now : Time) (seen s t : Store) (refusal : Option Value)
    {r : AttendanceResponse}
    → IsConsistent s
    → update_attendance input now seen refusal s ≡ (ok r, t)
    → r.idempotent_replay ≡ false
    → Recorded input now s t r
unfolding attendance_response recorded_response
update_attendance-Recorded input now seen s t refusal {r} c h first =
    let (one, left, (current, read, answer)) =
      update_attendance-first input now seen s t refusal h first in
    let (b, slot, found, there, hit, ended) = unrecorded_row input now s c one in
    let kept : find_booking input.booking_id t ≡ some (attendance_row input now b) =
      ap (λ u. find_booking input.booking_id u) left
      ∙ find-update_where (λ x. x.id == input.booking_id) (is_unrecorded input now s)
          (attendance_row input now) s.bookings found (λ x. refl)
      ∙ rw hit refl in
    let same : current ≡ attendance_row input now b = ground arith in
    let own = ==→eq b.tutor_profile_id input.tutor_id in
    let said : attendance_response (attendance_row input now b) input.attendance false ≡ ok r =
      ap (λ x. attendance_response x input.attendance false) (sym same) ∙ answer in
    let there' : find_slot b.slot_id t ≡ some slot = ap (find_slot b.slot_id) left ∙ there in
    let paid_row : is_paid b.payment_status ≡ true = ground arith in
    record {
      booking = attendance_row input now b;
      slot = slot;
      found = ap (with_slot t) kept ∙ rw (with_slot, there') refl;
      own = ground arith;
      free = ground arith;
      paid_for = is_paid-eq b.payment_status paid_row;
      done = refl;
      value = ground arith;
      time = ground arith;
      ended = ended;
      id = ground arith;
    }

-- A report that is sent again, once the first one has been recorded, replays it: in consistent
-- tables, where a report was recorded as `r` at `now`, another report of the same tutor on the same
-- booking, on the tables that the first one left and no earlier than it, changes nothing. With the
-- recorded value it returns that value and its time, marked as a replay; with another value it
-- throws the recorded one.
pub update_attendance-repeat :
    (input again : AttendanceRequest) (now later : Time) (seen s t : Store) (refusal : Option Value)
    {r : AttendanceResponse}
    → IsConsistent s
    → update_attendance input now seen refusal s ≡ (ok r, t)
    → r.idempotent_replay ≡ false
    → again.booking_id ≡ input.booking_id
    → again.tutor_id ≡ input.tutor_id
    → now ≤ later
    → update_attendance again later t none t ≡ (
      if same_attendance r.attendance again.attendance
          then ok (record {
            attendance = r.attendance;
            attendance_marked_at = r.attendance_marked_at;
            booking_id = r.booking_id;
            idempotent_replay = true;
            status = BookingStatus.completed;
          })
          else throw (attendance_already_recorded r.attendance),
      t,
    )
update_attendance-repeat input again now later seen s t refusal {r} c h first booking tutor order =
    let saved = update_attendance-Recorded input now seen s t refusal c h first in
    let ended = saved.ended in
    let found : find_booking_with_slot again.booking_id t ≡ some (saved.booking, saved.slot) =
      ap (λ i. find_booking_with_slot i t) booking ∙ saved.found in
    let replay =
      update_attendance-replay again later r.attendance_marked_at t t saved.booking saved.slot
        r.attendance found (saved.own ∙ sym tutor) saved.free saved.paid_for saved.done saved.value
        saved.time (omega arith) in
    rw (← saved.id) replay
