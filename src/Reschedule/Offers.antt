-- ===== src/Reschedule/Offers.antt =====
-- The actions that `getCurrent` of reschedule-requests.service.ts offers, against what `create` and
-- `approve` then do.
use hktutor.Shared.{
  Bool, List, refl, inl, inr, none, [], ◌∷◌, ◌≡◌, true, false, Option-cases, arith, any, any-find,
}
use hktutor.Reschedule.Current.{
  create, approve, reject, withdraw, RescheduleAction, get_current, can_reschedule,
}
use hktutor.Reschedule.Create.Checks.{check_request, RescheduleInput, is_open_of}
use hktutor.Reschedule.Access.{assert_active_user_with_consent, is_participant}
use hktutor.Database.Schema.{Time, Store, Booking}
use hktutor.Database.Results.{ok}
use hktutor.Database.Queries.{find_booking_with_slot}

-- A request that would be admitted is offered: where the checks of `create` pass for a user whose
-- account is active and who has consented, `getCurrent` offers to create a request, and nothing
-- else, at the same time.
pub create_request-offered :
    (input : RescheduleInput) (now : Time) (s : Store) {b : Booking}
    → assert_active_user_with_consent input.user_id s ≡ ok tt
    → check_request input now s ≡ ok b
    → get_current input.user_id input.booking_id now s
      ≡ ok (record { allowed_actions = create ∷ []; request = none; target_slot = none })
unfolding check_request get_current
create_request-offered input now s active h =
    elim (Option-cases (find_booking_with_slot input.booking_id s)) [
      | inl missing ↦ ground arith
      | inr ((b, slot), found) ↦
          let closed : any (is_open_of b.id) s.requests ≡ false = ground arith in
          let unasked = any-find (is_open_of b.id) s.requests closed in
          let member : is_participant input.user_id b ≡ true = ground arith in
          let due : can_reschedule b slot now ≡ true = ground arith in
          rw (active, found, member, unasked, due) refl
    ]

-- Whether an answer offers an approval.
abbrev pub offers_approval : List RescheduleAction → Bool
offers_approval [] = false
offers_approval (create ∷ rest) = offers_approval rest
offers_approval (approve ∷ rest) = true
offers_approval (reject ∷ rest) = offers_approval rest
offers_approval (withdraw ∷ rest) = offers_approval rest
