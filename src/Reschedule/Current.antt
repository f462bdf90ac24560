-- ===== src/Reschedule/Current.antt =====
-- reschedule-requests.service.ts: `getCurrent`, with the actions that it offers.
use hktutor.Shared.{
  Bool, not, Option, none, some, List, [], ◌∷◌, ◌+◌, ◌&&◌, ◌||◌, ◌==◌, ltb, leb, is_none, find,
  if◌then◌else◌,
}
use hktutor.Database.Enums.{is_confirmed}
use hktutor.Database.Schema.{Uuid, Time, Store, Booking, AvailabilitySlot, RescheduleRequest}
use hktutor.Database.Exceptions.{booking_not_found, booking_not_participant}
use hktutor.Database.Results.{Result, ok, ◌>>=◌, ◌>>◌, or_throw, throw_if}
use hktutor.Database.Queries.{find_slot, find_booking_with_slot, is_slot_reserved}
use hktutor.Reschedule.Access.{reschedule_cutoff, assert_active_user_with_consent, is_participant}
use hktutor.Reschedule.Create.{is_open_of}

-- `RescheduleAction` (reschedule-requests.dto.ts)
pub data RescheduleAction : Type 0 where
  create approve reject withdraw : RescheduleAction

pub record CurrentResponse : Type 0 where
  pub allowed_actions : List RescheduleAction
  pub request : Option RescheduleRequest
  pub target_slot : Option AvailabilitySlot

-- `canReschedule`
abbrev pub can_reschedule : Booking → AvailabilitySlot → Time → Bool
can_reschedule b slot now = is_confirmed b.status && leb (now + reschedule_cutoff) slot.start_at

-- `canApprove`
unfoldable pub can_approve :
    Store → Time → Booking → AvailabilitySlot → RescheduleRequest → AvailabilitySlot → Bool
can_approve s now b slot pending target =
    can_reschedule b slot now
    && pending.from_slot_id == b.slot_id
    && is_none target.deleted_at
    && ltb now target.start_at
    && target.tutor_profile_id == b.tutor_profile_id
    && not (is_slot_reserved target.id s)
    && (leb slot.end_at target.start_at || leb target.end_at slot.start_at)

-- The `allowedActions` of a pending request.
unfoldable pub pending_actions :
    Uuid
    → Store
    → Time
    → Booking
    → AvailabilitySlot
    → RescheduleRequest
    → AvailabilitySlot
    → List RescheduleAction
unfolding can_approve
pending_actions user s now b slot pending target =
    if user == pending.requested_by_id
    then withdraw ∷ []
    else if can_approve s now b slot pending target
    then approve ∷ reject ∷ []
    else reject ∷ []

-- The answer, with the pending request, if there is one. Its target slot is behind a foreign key.
unfoldable pub current_response :
    Uuid
    → Store
    → Time
    → Booking
    → AvailabilitySlot
    → Option RescheduleRequest
    → Result CurrentResponse
unfolding pending_actions
current_response user s now b slot none = ok (record {
  allowed_actions = if can_reschedule b slot now then create ∷ [] else [];
  request = none;
  target_slot = none;
})
current_response user s now b slot (some pending) = do
  target ← or_throw (find_slot pending.requested_slot_id s) booking_not_found
  ok (record {
    allowed_actions = pending_actions user s now b slot pending target;
    request = some pending;
    target_slot = some target;
  })

-- `getCurrent`
unfoldable pub get_current : Uuid → Uuid → Time → Store → Result CurrentResponse
unfolding assert_active_user_with_consent current_response
get_current user_id booking_id now s = do
  assert_active_user_with_consent user_id s
  (booking, slot) ← or_throw (find_booking_with_slot booking_id s) booking_not_found
  throw_if (not (is_participant user_id booking)) booking_not_participant
  current_response user_id s now booking slot (find (is_open_of booking.id) s.requests)
