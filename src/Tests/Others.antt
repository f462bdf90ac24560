-- ===== src/Tests/Others.antt =====
-- Runs of the reschedule requests, the reminders and the availability.
use hktutor.Shared.{
  refl, [], ◌∷◌, none, false, count_where, ◌≡◌, arith, ◌==◌, ◌≤◌, ℕ, some, All, ◌≢◌, ◌⊎◌,
}
use hktutor.Database.Enums.{BookingStatus, Role, unpaid}
use hktutor.Reschedule.Current.{create, approve, reject, CurrentResponse, get_current}
use hktutor.Reschedule.Access.{assert_active_user_with_consent}
use hktutor.Reschedule.Create.Checks.{check_request, RescheduleInput}
use hktutor.Database.Schema.{
  Store, booking_confirmed, RescheduleRequest, Booking, AvailabilitySlot, Uuid,
}
use hktutor.System.Invariant.{RequestIsValid, IsConsistent, BookingIsValid}
use hktutor.Notifications.Reminders.{
  ReminderBooking, write_reminders, plan_reminders, recipient, count_new,
}
use hktutor.Notifications.Events.{NotificationEvent, write}
use hktutor.Availability.Ranges.{RangeQuery, get_availability_public, is_bookable}
use hktutor.Availability.Listing.{
  IsOrdered, IsFree, is_bookable-IsFree, get_availability_public-lists,
}
use hktutor.Availability.Slots.{PostInput, post_availability}
use hktutor.Availability.Overlap.{IsDisjoint, post_availability-IsDisjoint}
use hktutor.Tests.Data.{
  confirmed_booking, move_request, tables, tuesday, no_bookings, alice, thomas,
}
use hktutor.Database.Results.{ok, throw, Result}
use hktutor.Reschedule.Offers.{create_request-offered}
use hktutor.Reschedule.Moves.{IsApprovable, IsMoved, approve_request-moves}
use hktutor.Database.Exceptions.{Exception, notification_not_participant}
use hktutor.Reschedule.Approve.{approve_request}
use hktutor.Notifications.Rows.{write_reminders-again, AreWritten}
use hktutor.Notifications.Recipients.{write-notifies, IsNotified}
use hktutor.Notifications.Bands.{plan_reminders-write_reminders}

abbrev confirmed_tables : Store
confirmed_tables = tables (confirmed_booking ∷ []) [] []

abbrev asking : RescheduleInput
asking = record {
  user_id = 1;
  user_role = Role.student;
  booking_id = 100;
  target_slot_id = 11;
  reason = none;
}

active : assert_active_user_with_consent 1 confirmed_tables ≡ ok tt
unfolding assert_active_user_with_consent
active = refl

admitted : check_request asking 1000 confirmed_tables ≡ ok confirmed_booking
unfolding check_request
admitted = refl

create_request-offered_example :
    get_current 1 100 1000 confirmed_tables
    ≡ ok (record { allowed_actions = create ∷ []; request = none; target_slot = none })
create_request-offered_example = create_request-offered asking 1000 confirmed_tables active admitted

abbrev asked_tables : Store
asked_tables = tables (confirmed_booking ∷ []) (move_request ∷ []) []

move_request-IsValid : RequestIsValid move_request
move_request-IsValid = record {
  open_undecided = λ h. (refl, refl, refl);
  decided_by_other = λ h. ground arith;
  withdrawn_undecided = λ h. ground arith;
  slots_apart = λ h. omega (arith, h);
}

confirmed_booking-IsValid : BookingIsValid confirmed_booking
confirmed_booking-IsValid = record {
  locked_confirmed = λ h. ground arith;
  paid_kept = λ h. ground arith;
  completed_recorded = λ h. ground arith;
  recorded_completed = λ h. ground arith;
  canceled_recorded = λ h. ground arith;
  linked_paid = λ h. ground arith;
  referenced_paid = λ h. ground arith;
  amounts_add_up = refl;
}

asked_tables-IsConsistent : IsConsistent asked_tables
asked_tables-IsConsistent = record {
  bookings_valid = (confirmed_booking-IsValid, tt);
  requests_valid = (move_request-IsValid, tt);
  slots_exclusive = λ slot. ground arith;
  one_open_request = λ i. ground arith;
  booking_ids = λ i. ground arith;
  attempt_ids = λ i. ground arith;
  locked_by_attempt = λ i. ground arith;
}

abbrev answered : CurrentResponse
answered = record {
  allowed_actions = approve ∷ reject ∷ [];
  request = some move_request;
  target_slot = some tuesday;
}

moving : approve_request 2 300 1000 1001 asked_tables none asked_tables ≡ (
  (approve_request 2 300 1000 1001 asked_tables none asked_tables).0,
  (approve_request 2 300 1000 1001 asked_tables none asked_tables).1,
)
moving = refl

approve_request-moves_example :
    ((e : Exception) × ((approve_request 2 300 1000 1001 asked_tables none asked_tables).0
        ≡ throw e)
      × ((approve_request 2 300 1000 1001 asked_tables none asked_tables).1 ≡ asked_tables))
    ⊎ ((r : RescheduleRequest) × (b : Booking) × (target : AvailabilitySlot) × IsApprovable 2 300
          1000 asked_tables r b target
        × IsMoved 2 300 1001 r b (approve_request 2 300 1000 1001 asked_tables none asked_tables).1)
approve_request-moves_example =
    approve_request-moves 2 300 1000 1001 asked_tables none asked_tables
      (approve_request 2 300 1000 1001 asked_tables none asked_tables).1 asked_tables-IsConsistent
      moving

abbrev upcoming : ReminderBooking
upcoming = record {
  id = 100;
  slot_id = 10;
  start_at = 5000;
  status = BookingStatus.confirmed;
  payment_status = unpaid;
  student = recipient alice;
  tutor = recipient thomas;
}

plan_reminders-write_reminders_example :
    (n : ℕ) × (t : Store) × (write_reminders 100 (plan_reminders upcoming 1000) no_bookings
      ≡ (ok n, t))
    × AreWritten (plan_reminders upcoming 1000) n no_bookings t
plan_reminders-write_reminders_example = plan_reminders-write_reminders upcoming 1000 no_bookings

abbrev reminded : Store
reminded = (write_reminders 100 (plan_reminders upcoming 1000) no_bookings).1

three_written : write_reminders 100 (plan_reminders upcoming 1000) no_bookings ≡ (ok 3, reminded)
unfolding write_reminders plan_reminders count_new
three_written = refl

write_reminders-again_example :
    write_reminders 100 (plan_reminders upcoming 1000) reminded ≡ (ok 0, reminded)
write_reminders-again_example =
    write_reminders-again 100 (plan_reminders upcoming 1000) no_bookings reminded three_written

abbrev confirmation : NotificationEvent
confirmation = record {
  actor_user_id = 2;
  booking_id = 100;
  student_user_id = 1;
  tutor_profile_id = 2;
  event_type = booking_confirmed;
  request_id = none;
}

abbrev sent : Result Unit
sent = ok tt

written : write confirmation no_bookings ≡ (ok tt, (write confirmation no_bookings).1)
unfolding write
written = refl

write-notifies_example :
    (confirmation.actor_user_id ≡ confirmation.student_user_id)
      × (confirmation.actor_user_id ≢ confirmation.tutor_profile_id)
      × (sent ≡ ok tt)
      × IsNotified 2 confirmation no_bookings (write confirmation no_bookings).1
    ⊎ (confirmation.actor_user_id ≢ confirmation.student_user_id)
      × (confirmation.actor_user_id ≡ confirmation.tutor_profile_id)
      × (sent ≡ ok tt)
      × IsNotified 1 confirmation no_bookings (write confirmation no_bookings).1
    ⊎ (confirmation.actor_user_id ≡ confirmation.student_user_id)
      × (confirmation.actor_user_id ≡ confirmation.tutor_profile_id)
      × (sent ≡ ok tt)
      × ((write confirmation no_bookings).1 ≡ no_bookings)
    ⊎ (confirmation.actor_user_id ≢ confirmation.student_user_id)
      × (confirmation.actor_user_id ≢ confirmation.tutor_profile_id)
      × (sent ≡ throw notification_not_participant)
      × ((write confirmation no_bookings).1 ≡ no_bookings)
write-notifies_example =
    write-notifies confirmation no_bookings (write confirmation no_bookings).1 (λ u k. omega arith)
      written

abbrev all_slots : RangeQuery
all_slots = record { from = none; to = none; overlap = false }

listed : get_availability_public 2 all_slots 1000 confirmed_tables ≡ ok (tuesday ∷ [])
unfolding get_availability_public
listed = refl

get_availability_public-lists_example :
    IsOrdered (tuesday ∷ [])
    × All (IsFree 2 all_slots 1000 confirmed_tables) (tuesday ∷ [])
    × (count_where (is_bookable 2 all_slots 1000 confirmed_tables) (tuesday ∷ [])
        ≡ count_where (is_bookable 2 all_slots 1000 confirmed_tables) confirmed_tables.slots)
    × ((i : Uuid)
        → count_where (λ a. a.id == i) (tuesday ∷ [])
          ≤ count_where (λ a. a.id == i) confirmed_tables.slots)
get_availability_public-lists_example =
    get_availability_public-lists 2 all_slots 1000 confirmed_tables
      (is_bookable 2 all_slots 1000 confirmed_tables) listed
      (is_bookable-IsFree 2 all_slots 1000 confirmed_tables)

-- A slot behind the two of the tables.
abbrev wednesday : PostInput
wednesday = record { user_id = 2; start_at = 400000000; end_at = 403600000 }

post_availability-IsDisjoint_example :
    IsDisjoint (post_availability (λ v. false) wednesday 12 no_bookings none no_bookings).1.slots
post_availability-IsDisjoint_example =
    post_availability-IsDisjoint (λ v. false) wednesday 12 no_bookings none ((refl, tt), (tt, tt))
