-- ===== src/Tests/Payments.antt =====
-- Runs of the transactions of payments.service.ts, and of the whole system.
use hktutor.Payments.Charges.{ChargeStatus}
use hktutor.Shared.{refl, [], ◌∷◌, none, some, false, true, count_where, ◌≡◌, arith, ◌≢◌}
use hktutor.Database.Enums.{AttendanceStatus}
use hktutor.System.Steps.{
  here, next, create_step, confirm_step, claim_step, cancel_step, charge_step, Reach-IsConsistent,
}
use hktutor.Database.Schema.{Booking, Store, PaymentAttempt}
use hktutor.System.Invariant.{IsConsistent, BookingIsValid, Consistent}
use hktutor.Bookings.Transition.{
  TutorBookingAction, confirm_tutor_booking, transition_pending_booking,
}
use hktutor.Bookings.Cancel.Checks.{CancelInput}
use hktutor.Bookings.Create.{create_booking}
use hktutor.Payments.Create.{PaymentInput, claim, new_attempt}
use hktutor.Bookings.Cancel.{cancel_booking}
use hktutor.Payments.Settlement.{apply_charge, has_id, is_awaiting}
use hktutor.Bookings.Attendance.{AttendanceRequest, update_attendance}
use hktutor.Tests.Data.{
  charge, completed_booking, confirmed_booking, no_bookings, payment, selection, tables,
}
use hktutor.Database.Results.{ok}
use hktutor.Payments.Races.{claim-blocks_cancel, claim-exclusive}
use hktutor.Payments.Replays.{is_booking_paid, apply_charge-again, apply_charge-pays}
use hktutor.Bookings.Replays.{update_attendance-once}
use hktutor.Bookings.Selection.{assert_bookable_slot, validate_booking_selection}
use hktutor.Database.Queries.{find_attempt}
use hktutor.Bookings.Amounts.{thb}

one_booking-Consistent :
    (b : Booking) → BookingIsValid b → b.payment_pending ≡ false → Consistent (b ∷ []) [] []
one_booking-Consistent b valid free = record {
  bookings_valid = (valid, tt);
  requests_valid = tt;
  slots_exclusive = λ slot. ground arith;
  one_open_request = λ i. omega arith;
  booking_ids = λ i. ground arith;
  attempt_ids = λ i. omega arith;
  locked_by_attempt = λ i. ground arith;
}

no_bookings-IsConsistent : IsConsistent no_bookings
no_bookings-IsConsistent = record {
  bookings_valid = tt;
  requests_valid = tt;
  slots_exclusive = λ slot. omega arith;
  one_open_request = λ i. omega arith;
  booking_ids = λ i. omega arith;
  attempt_ids = λ i. omega arith;
  locked_by_attempt = λ i. refl;
}

abbrev confirming : TutorBookingAction
confirming = record { booking_id = 100; tutor_user_id = 2 }

abbrev cancellation : CancelInput
cancellation = record { booking_id = 100; reason = b'x' ∷ []; user_id = 1 }

-- A booking is created, confirmed, claimed for payment and paid; a cancellation that had read it
-- before the claim comes in between.
abbrev first : Store
first = (create_booking selection 100 0 0 none no_bookings).1

abbrev second : Store
second = (confirm_tutor_booking confirming first none first).1

abbrev third : Store
third = (claim payment 45000 none second).1

abbrev fourth : Store
fourth = (cancel_booking cancellation 1000 1001 second none third).1

abbrev fifth : Store
fifth = (apply_charge (charge ChargeStatus.successful) 500 none fourth).1

no_attempt : count_where (has_id 500) second.attempts ≡ 0
unfolding create_booking confirm_tutor_booking transition_pending_booking assert_bookable_slot
    validate_booking_selection
no_attempt = refl

Reach-IsConsistent_example : IsConsistent fifth
Reach-IsConsistent_example = Reach-IsConsistent no_bookings-IsConsistent (
    next
      (next
        (next
          (next (next here (create_step selection 100 0 0 none refl))
            (confirm_step confirming first none))
          (claim_step payment 45000 none no_attempt))
        (cancel_step cancellation 1000 1001 second none))
      (charge_step (charge ChargeStatus.successful) 500 none))

abbrev confirmed_tables : Store
confirmed_tables = tables (confirmed_booking ∷ []) [] []

confirmed_tables-IsConsistent : IsConsistent confirmed_tables
confirmed_tables-IsConsistent =
    one_booking-Consistent confirmed_booking
      (record {
        locked_confirmed = λ h. ground arith;
        paid_kept = λ h. ground arith;
        completed_recorded = λ h. ground arith;
        recorded_completed = λ h. ground arith;
        canceled_recorded = λ h. ground arith;
        linked_paid = λ h. ground arith;
        referenced_paid = λ h. ground arith;
        amounts_add_up = refl;
      })
      refl

abbrev claimed_tables : Store
claimed_tables = (claim payment 45000 none confirmed_tables).1

claimed :
    claim payment 45000 none confirmed_tables
    ≡ (ok (some (new_attempt payment 45000)), claimed_tables)
unfolding claim
claimed = refl

claim-blocks_cancel_example :
    (cancel_booking cancellation 1000 1001 confirmed_tables none claimed_tables).1 ≡ claimed_tables
claim-blocks_cancel_example =
    claim-blocks_cancel payment 45000 none confirmed_tables claimed_tables
      confirmed_tables-IsConsistent claimed cancellation 1000 1001 confirmed_tables none refl

abbrev again : PaymentInput
again = record payment { attempt_id = 501 }

claim-exclusive_example : (claim again 45000 none claimed_tables).0 ≡ ok none
claim-exclusive_example =
    claim-exclusive payment 45000 none confirmed_tables claimed_tables confirmed_tables-IsConsistent
      claimed again 45000 refl

abbrev locked_tables : Store
locked_tables =
    tables (record confirmed_booking { payment_pending = true } ∷ []) []
      (new_attempt payment 45000 ∷ [])

abbrev paid_tables : Store
paid_tables = (apply_charge (charge ChargeStatus.successful) 500 none locked_tables).1

one_more :
    count_where is_booking_paid paid_tables.bookings
    ≢ count_where is_booking_paid locked_tables.bookings
unfolding apply_charge
one_more = λ h. omega (arith, h)

apply_charge-pays_example :
    (ChargeStatus.successful ≡ ChargeStatus.successful)
    × ((a : PaymentAttempt) × (find_attempt 500 locked_tables ≡ some a)
        × (a.booking_id ≡ 100)
        × (a.amount ≡ 45000)
        × (a.currency ≡ thb)
        × (count_where (is_awaiting a) locked_tables.bookings ≡ 1))
apply_charge-pays_example =
    apply_charge-pays (charge ChargeStatus.successful) 500 none locked_tables one_more

applied :
    apply_charge (charge ChargeStatus.successful) 500 none locked_tables ≡ (ok tt, paid_tables)
unfolding apply_charge
applied = refl

apply_charge-again_example :
    apply_charge (charge ChargeStatus.successful) 500 none paid_tables ≡ (ok tt, paid_tables)
apply_charge-again_example =
    apply_charge-again (charge ChargeStatus.successful) 500 locked_tables paid_tables applied
      (ground arith)

abbrev completed_tables : Store
completed_tables = tables (completed_booking ∷ []) [] []

completed_tables-IsConsistent : IsConsistent completed_tables
completed_tables-IsConsistent =
    one_booking-Consistent completed_booking
      (record {
        locked_confirmed = λ h. ground arith;
        paid_kept = λ h. ground arith;
        completed_recorded = λ h. ground arith;
        recorded_completed = λ h. ground arith;
        canceled_recorded = λ h. ground arith;
        linked_paid = λ h. ground arith;
        referenced_paid = λ h. ground arith;
        amounts_add_up = refl;
      })
      refl

abbrev report : AttendanceRequest
report = record { booking_id = 100; tutor_id = 2; attendance = AttendanceStatus.absent }

-- A report that had read the booking before its attendance was recorded.
update_attendance-once_example :
    (update_attendance report 190000000 paid_tables none completed_tables).1 ≡ completed_tables
update_attendance-once_example =
    update_attendance-once report 190000000 paid_tables completed_tables none completed_booking
      AttendanceStatus.attended completed_tables-IsConsistent refl refl
