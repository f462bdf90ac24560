-- ===== src/System/Steps.antt =====
-- The program as a transition system: a step is one transaction that a request runs, with any store
-- that it may have read before, and with the database refusing to commit it or not.
use hktutor.Shared.{some, Bool, Option, count_where, ◌≡◌, arith, Text, ℕ, List}
use hktutor.Database.Schema.{Store, Uuid, Time, PaymentAttempt, Notification}
use hktutor.Availability.Slots.{delete_availability, post_availability, PostInput}
use hktutor.Bookings.Selection.{BookingSelection}
use hktutor.Database.Values.{Value}
use hktutor.System.Invariant.{has_booking_id, IsConsistent}
use hktutor.Bookings.Create.{create_booking}
use hktutor.Bookings.Transition.{
  TutorBookingAction, confirm_tutor_booking, reject_tutor_booking, to_confirmed, to_canceled,
  reason_or, default_rejection_reason,
}
use hktutor.Bookings.Cancel.Checks.{CancelInput}
use hktutor.Bookings.Cancel.{cancel_booking}
use hktutor.Bookings.Attendance.{AttendanceRequest, update_attendance}
use hktutor.Bookings.MeetingLink.{Url, MeetingLinkInput, update_meeting_link}
use hktutor.Reschedule.Create.Checks.{RescheduleInput}
use hktutor.Reschedule.Create.{create_request}
use hktutor.Reschedule.Approve.{approve_request}
use hktutor.Reschedule.Close.{reject_request, withdraw_request}
use hktutor.Payments.Create.{PaymentInput, claim, release}
use hktutor.Payments.Settlement.{has_id, apply_charge}
use hktutor.Database.Queries.{find_attempt}
use hktutor.Payments.Charges.{OmiseCharge}
use hktutor.Notifications.Reminders.{
  remind_booking, remind_locked, write_reminders, ReminderBooking,
}
use hktutor.System.Keeps.Bookings.{
  create-IsConsistent, transition-IsConsistent, cancel-IsConsistent, attendance-IsConsistent,
  link-IsConsistent,
}
use hktutor.System.Keeps.Reschedule.{
  request-IsConsistent, approve-IsConsistent, reject-IsConsistent, withdraw-IsConsistent,
}
use hktutor.System.Keeps.Payments.{claim-IsConsistent}
use hktutor.System.Keeps.Release.{release-IsConsistent}
use hktutor.System.Keeps.Settlement.{apply-IsConsistent}

pub data Step (s : Store) : Store → Type 0 where
  create_step :
      (input : BookingSelection) (id : Uuid) (now created_at : Time) (refusal : Option Value)
      → count_where (has_booking_id id) s.bookings ≡ 0
      → Step s (create_booking input id now created_at refusal s).1
  confirm_step :
      (input : TutorBookingAction) (seen : Store) (refusal : Option Value)
      → Step s (confirm_tutor_booking input seen refusal s).1
  reject_step :
      (input : TutorBookingAction) (reason : Option Text) (now : Time) (seen : Store)
      (refusal : Option Value)
      → Step s (reject_tutor_booking input reason now seen refusal s).1
  cancel_step :
      (input : CancelInput) (now canceled_at : Time) (seen : Store) (refusal : Option Value)
      → Step s (cancel_booking input now canceled_at seen refusal s).1
  attendance_step :
      (input : AttendanceRequest) (now : Time) (seen : Store) (refusal : Option Value)
      → Step s (update_attendance input now seen refusal s).1
  link_step :
      (parse_url : Text → Option Url) (input : MeetingLinkInput) (seen : Store)
      (refusal : Option Value)
      → Step s (update_meeting_link parse_url input seen refusal s).1
  request_step :
      (input : RescheduleInput) (id : Uuid) (now requested_at : Time) (seen : Store)
      (refusal : Option Value)
      → Step s (create_request input id now requested_at seen refusal s).1
  approve_step :
      (user request : Uuid) (now decided_at : Time) (seen : Store) (refusal : Option Value)
      → Step s (approve_request user request now decided_at seen refusal s).1
  reject_request_step :
      (user request : Uuid) (now : Time) (seen : Store) (refusal : Option Value)
      → Step s (reject_request user request now seen refusal s).1
  withdraw_step :
      (user request : Uuid) (now : Time) (seen : Store) (refusal : Option Value)
      → Step s (withdraw_request user request now seen refusal s).1
  claim_step :
      (input : PaymentInput) (amount : ℕ) (refusal : Option Value)
      → count_where (has_id input.attempt_id) s.attempts ≡ 0
      → Step s (claim input amount refusal s).1
  release_step :
      (input : PaymentInput) (refusal : Option Value) (a : PaymentAttempt)
      → find_attempt input.attempt_id s ≡ some a
      → a.booking_id ≡ input.booking_id
      → Step s (release input refusal s).1
  charge_step :
      (charge : OmiseCharge) (expected : Uuid) (refusal : Option Value)
      → Step s (apply_charge charge expected refusal s).1
  post_step :
      (names_constraint : Value → Bool) (input : PostInput) (id : Uuid) (seen : Store)
      (refusal : Option Value)
      → Step s (post_availability names_constraint input id seen refusal s).1
  delete_step :
      (names_constraint : Value → Bool) (user slot : Uuid) (now : Time) (seen : Store)
      (refusal : Option Value)
      → Step s (delete_availability names_constraint user slot now seen refusal s).1
  remind_step :
      (row : ReminderBooking) (stored : List Notification) (now : Time) (refusal : Option Value)
      → Step s (remind_booking row stored now refusal s).1

pub data Reach (s : Store) : Store → Type 0 where
  here : Reach s s
  next : {t u : Store} → Reach s t → Step t u → Reach s u

post-others :
    (names_constraint : Value → Bool) (input : PostInput) (id : Uuid) (seen : Store)
    (refusal : Option Value) (s : Store)
    → let t = (post_availability names_constraint input id seen refusal s).1 in
      (t.bookings ≡ s.bookings) × (t.requests ≡ s.requests) × (t.attempts ≡ s.attempts)
unfolding post_availability
post-others names_constraint input id seen refusal s = ground arith

delete-others :
    (names_constraint : Value → Bool) (user slot : Uuid) (now : Time) (seen : Store)
    (refusal : Option Value) (s : Store)
    → let t = (delete_availability names_constraint user slot now seen refusal s).1 in
      (t.bookings ≡ s.bookings) × (t.requests ≡ s.requests) × (t.attempts ≡ s.attempts)
unfolding delete_availability
delete-others names_constraint user slot now seen refusal s = ground arith

remind-others :
    (row : ReminderBooking) (stored : List Notification) (now : Time) (refusal : Option Value)
    (s : Store)
    → let t = (remind_booking row stored now refusal s).1 in
      (t.bookings ≡ s.bookings) × (t.requests ≡ s.requests) × (t.attempts ≡ s.attempts)
unfolding remind_booking remind_locked write_reminders
remind-others row stored now refusal s = ground arith

Step-IsConsistent : {s t : Store} → Step s t → IsConsistent s → IsConsistent t
unfolding confirm_tutor_booking reject_tutor_booking
Step-IsConsistent {s} (create_step input id now created_at refusal fresh) c =
    create-IsConsistent s c input id now created_at refusal fresh
Step-IsConsistent {s} (confirm_step input seen refusal) c =
    transition-IsConsistent s c input to_confirmed seen refusal
Step-IsConsistent {s} (reject_step input reason now seen refusal) c =
    transition-IsConsistent s c input
      (to_canceled now input.tutor_user_id (reason_or reason default_rejection_reason)) seen refusal
Step-IsConsistent {s} (cancel_step input now canceled_at seen refusal) c =
    cancel-IsConsistent s c input now canceled_at seen refusal
Step-IsConsistent {s} (attendance_step input now seen refusal) c =
    attendance-IsConsistent s c input now seen refusal
Step-IsConsistent {s} (link_step parse_url input seen refusal) c =
    link-IsConsistent s c parse_url input seen refusal
Step-IsConsistent {s} (request_step input id now requested_at seen refusal) c =
    request-IsConsistent s c input id now requested_at seen refusal
Step-IsConsistent {s} (approve_step user request now decided_at seen refusal) c =
    approve-IsConsistent s c user request now decided_at seen refusal
Step-IsConsistent {s} (reject_request_step user request now seen refusal) c =
    reject-IsConsistent s c user request now seen refusal
Step-IsConsistent {s} (withdraw_step user request now seen refusal) c =
    withdraw-IsConsistent s c user request now seen refusal
Step-IsConsistent {s} (claim_step input amount refusal fresh) c =
    claim-IsConsistent s c input amount refusal fresh
Step-IsConsistent {s} (release_step input refusal a found owner) c =
    release-IsConsistent input s c found owner refusal
Step-IsConsistent {s} (charge_step charge expected refusal) c =
    apply-IsConsistent s c charge expected refusal
Step-IsConsistent {s} (post_step names_constraint input id seen refusal) c =
    let (bookings, requests, attempts) = post-others names_constraint input id seen refusal s in
    rw (bookings, requests, attempts) c
Step-IsConsistent {s} (delete_step names_constraint user slot now seen refusal) c =
    let (bookings, requests, attempts) =
      delete-others names_constraint user slot now seen refusal s in
    rw (bookings, requests, attempts) c
Step-IsConsistent {s} (remind_step row stored now refusal) c =
    let (bookings, requests, attempts) = remind-others row stored now refusal s in
    rw (bookings, requests, attempts) c

-- From a store that is consistent, every sequence of transactions, in any order and by any number
-- of concurrent requests, leads to a consistent store: no slot is held twice, a booking is locked
-- for payment exactly while an attempt is under way, no paid booking is canceled, and a booking has
-- one open request at most.
pub Reach-IsConsistent : {s t : Store} → IsConsistent s → Reach s t → IsConsistent t
Reach-IsConsistent c here = c
Reach-IsConsistent c (next before step) = Step-IsConsistent step (Reach-IsConsistent c before)
