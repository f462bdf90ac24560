-- ===== src/Tests/Bookings.antt =====
-- Runs of the handlers of bookings.service.ts.
use hktutor.Shared.{
  inl, drop_spaces, is_space, trim, refl, [], ◌∷◌, none, some, false, ◌≡◌, ◌<◌, ◌≤◌, ◌⊎◌, ◌+◌, ◌*◌,
  arith, count_where, ◌-◌, update_where, trim,
}
use hktutor.Database.Enums.{BookingStatus, unpaid, paid, AttendanceStatus}
use hktutor.Bookings.Selection.{assert_bookable_slot, validate_booking_selection, get_quote}
use hktutor.Bookings.Transition.{
  to_confirmed, to_canceled, TutorBookingAction, transition_pending_booking, SlotStatus,
}
use hktutor.Bookings.Create.{create_booking}
use hktutor.Database.Schema.{Booking, AvailabilitySlot, Store}
use hktutor.Database.Queries.{reservations, find_slot, find_booking_with_slot}
use hktutor.Tests.Data.{
  no_bookings, selection, mathematics, requested, monday, tables, completed_booking,
  confirmed_booking,
}
use hktutor.Database.Results.{ok, throw}
use hktutor.Bookings.Quotes.{get_quote-create_booking, create_booking-slot}
use hktutor.Bookings.Amounts.{BookingAmounts, derive_booking_amounts, thb, milliseconds_per_hour}
use hktutor.Bookings.Cancel.Checks.{CancelInput, check_cancelable}
use hktutor.Bookings.Cancel.{cancel_booking, is_cancelable, cancel_row}
use hktutor.Bookings.ClassDetail.{get_booking_class_detail, ClassDetail}
use hktutor.Bookings.Attendance.{
  AttendanceRequest, update_attendance, record_attendance, save_attendance, attendance_response,
  recorded_response,
}
use hktutor.System.Invariant.{IsConsistent}
use hktutor.Bookings.Races.{transition-once}
use hktutor.Bookings.Outcomes.{get_booking_class_detail-link, cancel_booking-ok}
use hktutor.Database.Exceptions.{attendance_already_recorded, slot_invalid_duration}
use hktutor.Bookings.Replays.{update_attendance-repeat}
use hktutor.Bookings.Bounds.{derive_booking_amounts_lem}

-- The quote and the creation of the first slot's booking.
created : (create_booking selection 100 0 0 none no_bookings).0 ≡ ok requested
unfolding create_booking assert_bookable_slot validate_booking_selection
created = refl

abbrev amounts : BookingAmounts
amounts = record {
  currency = thb;
  discount_amount = 0;
  net_amount = 45000;
  subtotal_amount = 45000;
}

quoted :
    get_quote selection 0 no_bookings
    ≡ ok (record {
      amounts = amounts;
      listing = mathematics;
      slot = monday;
      tutor_id = 2;
      display_name = [];
    })
unfolding get_quote assert_bookable_slot validate_booking_selection
quoted = refl

get_quote-create_booking_example :
    (b : Booking) × ((create_booking selection 100 0 0 none no_bookings).0 ≡ ok b)
    × (b.slot_id ≡ 10)
    × (b.listing_id ≡ 30)
    × (b.tutor_profile_id ≡ 2)
    × (b.subtotal_amount ≡ 45000)
    × (b.net_amount ≡ 45000)
    × (b.status ≡ BookingStatus.pending)
    × (b.payment_status ≡ unpaid)
get_quote-create_booking_example = get_quote-create_booking selection 100 0 0 no_bookings quoted

-- The tables after the creation.
abbrev after_create : Store
after_create = (create_booking selection 100 0 0 none no_bookings).1

creation : create_booking selection 100 0 0 none no_bookings ≡ (ok requested, after_create)
unfolding create_booking assert_bookable_slot validate_booking_selection
creation = refl

create_booking-slot_example :
    (reservations 10 no_bookings ≡ 0)
    × (reservations 10 after_create ≡ 1)
    × ((slot : AvailabilitySlot) × (find_slot 10 no_bookings ≡ some slot)
        × (slot.deleted_at ≡ none)
        × (0 < slot.start_at)
        × (slot.start_at < slot.end_at))
create_booking-slot_example =
    create_booking-slot selection 100 0 0 none no_bookings after_create creation

abbrev confirming : TutorBookingAction
confirming = record { booking_id = 100; tutor_user_id = 2 }

abbrev one_booking : Store
one_booking = tables (requested ∷ []) [] []

abbrev after_confirm : Store
after_confirm = (transition_pending_booking confirming to_confirmed one_booking none one_booking).1

confirmation : transition_pending_booking confirming to_confirmed one_booking none one_booking ≡ (
  ok (record {
    booking_id = 100;
    canceled_at = none;
    slot_status = SlotStatus.reserved;
    status = BookingStatus.confirmed;
  }),
  after_confirm,
)
unfolding transition_pending_booking
confirmation = refl

-- A rejection that had read the booking while it was pending.
transition-once_example :
    (transition_pending_booking confirming (to_canceled 5 2 []) one_booking none after_confirm).1
    ≡ after_confirm
transition-once_example =
    transition-once confirming to_confirmed (to_canceled 5 2 []) one_booking one_booking one_booking
      after_confirm none none confirmation

abbrev confirmed_tables : Store
confirmed_tables = tables (confirmed_booking ∷ []) [] []

abbrev cancellation : CancelInput
cancellation = record { booking_id = 100; reason = b'x' ∷ []; user_id = 1 }

abbrev after_cancel : Store
after_cancel = (cancel_booking cancellation 1000 1001 confirmed_tables none confirmed_tables).1

canceled : cancel_booking cancellation 1000 1001 confirmed_tables none confirmed_tables ≡ (
  ok (record { booking_id = 100; canceled_at = 1001; status = BookingStatus.canceled }),
  after_cancel,
)
unfolding cancel_booking check_cancelable trim drop_spaces is_space
canceled = refl

cancel_booking-ok_example :
    (b : Booking) × (slot : AvailabilitySlot) × (find_booking_with_slot 100 confirmed_tables
      ≡ some (b, slot))
    × ((b.student_user_id ≡ 1) ⊎ (b.tutor_profile_id ≡ 1))
    × (b.payment_status ≡ unpaid)
    × (b.payment_pending ≡ false)
    × (1000 + 24 * milliseconds_per_hour ≤ slot.start_at)
    × (count_where (is_cancelable cancellation b.slot_id) confirmed_tables.bookings ≡ 1)
    × (after_cancel.bookings
        ≡ update_where
            (is_cancelable cancellation b.slot_id)
            (cancel_row cancellation (trim (b'x' ∷ [])) 1001)
            confirmed_tables.bookings)
cancel_booking-ok_example =
    cancel_booking-ok cancellation 1000 1001 confirmed_tables confirmed_tables after_cancel none
      canceled

abbrev linked_tables : Store
linked_tables = tables (record completed_booking { meeting_url = some (b'h' ∷ []) } ∷ []) [] []

detail :
    (d : ClassDetail) × (get_booking_class_detail 100 linked_tables ≡ ok d)
    × (d.meeting_url ≡ some (b'h' ∷ []))
unfolding get_booking_class_detail
detail = (_, refl, refl)

get_booking_class_detail-link_example :
    (detail.0.payment_status ≡ paid)
    × ((detail.0.status ≡ BookingStatus.confirmed) ⊎ (detail.0.status ≡ BookingStatus.completed))
get_booking_class_detail-link_example =
    get_booking_class_detail-link 100 linked_tables detail.1 detail.2

abbrev report : AttendanceRequest
report = record { booking_id = 100; tutor_id = 2; attendance = AttendanceStatus.absent }

abbrev ended_tables : Store
ended_tables = tables (record confirmed_booking { payment_status = paid } ∷ []) [] []

abbrev reported_tables : Store
reported_tables = (update_attendance report 190000000 ended_tables none ended_tables).1

reported : update_attendance report 190000000 ended_tables none ended_tables ≡ (
  ok (record {
    attendance = AttendanceStatus.absent;
    attendance_marked_at = 190000000;
    booking_id = 100;
    idempotent_replay = false;
    status = BookingStatus.completed;
  }),
  reported_tables,
)
unfolding update_attendance record_attendance save_attendance attendance_response recorded_response
reported = refl

ended_tables-IsConsistent : IsConsistent ended_tables
ended_tables-IsConsistent = record {
  bookings_valid = (
    record {
      locked_confirmed = λ h. ground arith;
      paid_kept = λ h. inl refl;
      completed_recorded = λ h. ground arith;
      recorded_completed = λ h. ground arith;
      canceled_recorded = λ h. ground arith;
      linked_paid = λ h. ground arith;
      referenced_paid = λ h. ground arith;
      amounts_add_up = refl;
    },
    tt,
  );
  requests_valid = tt;
  slots_exclusive = λ slot. ground arith;
  one_open_request = λ i. omega arith;
  booking_ids = λ i. ground arith;
  attempt_ids = λ i. omega arith;
  locked_by_attempt = λ i. ground arith;
}

-- Another value than the recorded one.
update_attendance-repeat_example :
    update_attendance
      (record report { attendance = AttendanceStatus.attended })
      200000000
      reported_tables
      none
      reported_tables
    ≡ (throw (attendance_already_recorded AttendanceStatus.absent), reported_tables)
update_attendance-repeat_example =
    update_attendance-repeat report (record report { attendance = AttendanceStatus.attended })
      190000000 200000000 ended_tables ended_tables reported_tables none ended_tables-IsConsistent
      reported refl refl refl (omega arith)

derive_booking_amounts_lem_example :
    (monday.end_at ≤ monday.start_at)
      × (derive_booking_amounts 45000 monday ≡ throw slot_invalid_duration)
    ⊎ ((a : BookingAmounts) × (derive_booking_amounts 45000 monday ≡ ok a)
        × (monday.start_at < monday.end_at)
        × (a.discount_amount ≡ 0)
        × (a.net_amount ≡ a.subtotal_amount)
        × (a.currency ≡ thb)
        × (2 * a.net_amount * milliseconds_per_hour
            ≤ 2 * (45000 * (monday.end_at - monday.start_at)) + milliseconds_per_hour)
        × (2 * (45000 * (monday.end_at - monday.start_at))
            < 2 * a.net_amount * milliseconds_per_hour + milliseconds_per_hour))
derive_booking_amounts_lem_example = derive_booking_amounts_lem 45000 monday
