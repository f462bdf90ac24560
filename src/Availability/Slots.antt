-- ===== src/Availability/Slots.antt =====
-- tutor-availability.service.ts: `postAvailability` and `deleteAvailability`.
use hktutor.Shared.{
  Bool, Option, none, some, [], ◌∷◌, ◌&&◌, ◌||◌, ◌==◌, ltb, leb, is_none, if◌then◌else◌, any, find,
}
use hktutor.Database.Values.{Value, is_code_in, read_property, record_not_found}
use hktutor.Database.Schema.{Uuid, Time, Store, AvailabilitySlot}
use hktutor.Database.Exceptions.{
  invalid_time_range, availability_overlap, slot_not_found, slot_reserved, thrown,
}
use hktutor.Database.Results.{Result, throw, or_throw}
use hktutor.Database.Actions.{
  Action, ◌>>=◌, ◌>>◌, reads, fail_if, insert_slot, update_slots, transaction,
}
use hktutor.Database.Queries.{is_slot_reserved}

pub record PostInput : Type 0 where
  pub user_id : Uuid
  pub start_at : Time
  pub end_at : Time

-- The `where` of the overlap test.
abbrev pub meets : PostInput → AvailabilitySlot → Bool
meets input a =
    is_none a.deleted_at
    && ltb input.start_at a.end_at
    && ltb a.start_at input.end_at
    && a.tutor_profile_id == input.user_id

abbrev pub new_slot : Uuid → PostInput → AvailabilitySlot
new_slot id input = record {
  id = id;
  tutor_profile_id = input.user_id;
  start_at = input.start_at;
  end_at = input.end_at;
  deleted_at = none;
}

-- `isRecordNotFound`
unfoldable pub is_record_not_found : Value → Bool
unfolding is_code_in read_property
is_record_not_found v = is_code_in ("P2025" ∷ []) (read_property v "code")

-- `isConstraintViolation`, whose second test looks for the name of a constraint in the message: it
-- is the parameter `names_constraint`.
module _ (names_constraint : Value → Bool) where
  unfoldable pub is_constraint_violation : Value → Bool
  unfolding is_code_in read_property
  is_constraint_violation v =
      is_code_in ("P2004" ∷ []) (read_property v "code") || names_constraint v

  abbrev pub map_insert_error : {A : Type 0} → Result A → Result A
  map_insert_error (throw (thrown v)) =
      if is_constraint_violation v then throw availability_overlap else throw (thrown v)
  map_insert_error r = r

  -- `postAvailability`. The overlap is counted ahead of the insert, on the store `seen`.
  unfoldable pub post_availability :
      PostInput → Uuid → Store → Option Value → Action AvailabilitySlot
  post_availability input id seen refusal = do
    fail_if (leb input.end_at input.start_at) invalid_time_range
    fail_if (any (meets input) seen.slots) availability_overlap
    λ s.
        let (r, t) = transaction refusal (insert_slot (new_slot id input)) s in
        (map_insert_error r, t)

  abbrev pub map_delete_error : {A : Type 0} → Result A → Result A
  map_delete_error (throw (thrown v)) =
      if is_record_not_found v
      then throw slot_not_found
      else if is_constraint_violation v
      then throw slot_reserved
      else throw (thrown v)
  map_delete_error r = r

  abbrev pub is_own_slot : Uuid → Uuid → AvailabilitySlot → Bool
  is_own_slot user slot a = is_none a.deleted_at && a.id == slot && a.tutor_profile_id == user

  -- `update` of one row throws where no row meets the `where`.
  unfoldable pub remove_slot : Uuid → Uuid → Time → Option Value → Action (Unit {0})
  remove_slot user slot now refusal = transaction refusal do
    count ← update_slots (is_own_slot user slot) (λ a. record a { deleted_at = some now })
    fail_if (count == 0) (thrown record_not_found)

  -- `deleteAvailability`. The slot and its bookings are read ahead of the update, on `seen`.
  unfoldable pub delete_availability : Uuid → Uuid → Time → Store → Option Value → Action (Unit {0})
  unfolding remove_slot
  delete_availability user slot now seen refusal = do
    reads (λ _. or_throw (find (is_own_slot user slot) seen.slots) slot_not_found)
    fail_if (is_slot_reserved slot seen) slot_reserved
    λ s. let (r, t) = remove_slot user slot now refusal s in (map_delete_error r, t)
