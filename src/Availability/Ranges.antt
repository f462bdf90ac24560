-- ===== src/Availability/Ranges.antt =====
-- tutor-availability.service.ts: `getAvailabilityPrivate`, `getAvailabilityPublic` and the range
-- that their queries admit.
use hktutor.Shared.{
  Bool, true, not, Option, none, some, List, [], ◌∷◌, ◌&&◌, ◌||◌, ◌==◌, ltb, leb, is_none,
  if◌then◌else◌, map, select,
}
use hktutor.Database.Schema.{Uuid, Time, Store, AvailabilitySlot}
use hktutor.Database.Exceptions.{invalid_time_range, tutor_not_found}
use hktutor.Database.Results.{Result, ok, ◌>>◌, or_throw, throw_if}
use hktutor.Database.Queries.{is_slot_reserved}
use hktutor.Bookings.Selection.{find_public_tutor}

-- `AvailabilityQueryDto`; `overlap` is `rangeMode === 'overlap'`, of the private query alone.
pub record RangeQuery : Type 0 where
  pub from : Option Time
  pub to : Option Time
  pub overlap : Bool

-- `validateAvailabilityRange`
unfoldable pub validate_range : Option Time → Option Time → Result (Unit {0})
validate_range (some from) (some to) = throw_if (leb to from) invalid_time_range
validate_range _ _ = ok tt

-- A bound of a `where` that may be left out.
abbrev pub met : (Time → Bool) → Option Time → Bool
met test none = true
met test (some t) = test t

-- `availabilityRangeWhere`
unfoldable pub range_where : RangeQuery → AvailabilitySlot → Bool
range_where q a =
    if is_none q.from && is_none q.to
    then true
    else if q.overlap
    then met (λ t. ltb t a.end_at) q.from && met (λ t. ltb a.start_at t) q.to
    else met (λ t. leb t a.start_at) q.from && met (λ t. ltb a.start_at t) q.to

-- `orderBy: [{ startAtUtc: 'asc' }, { endAtUtc: 'asc' }]`
abbrev pub is_before : AvailabilitySlot → AvailabilitySlot → Bool
is_before a b = ltb a.start_at b.start_at || a.start_at == b.start_at && leb a.end_at b.end_at

unfoldable pub insert_sorted : AvailabilitySlot → List AvailabilitySlot → List AvailabilitySlot
insert_sorted a [] = a ∷ []
insert_sorted a (b ∷ rest) =
    let later = insert_sorted a rest in if is_before a b then a ∷ b ∷ rest else b ∷ later

unfoldable pub order_slots : List AvailabilitySlot → List AvailabilitySlot
unfolding insert_sorted
order_slots [] = []
order_slots (a ∷ rest) = insert_sorted a (order_slots rest)

pub data AvailabilityState : Type 0 where
  open_slot reserved : AvailabilityState

-- The row of an own slot: whether a pending or confirmed booking holds it.
abbrev pub slot_state : Store → AvailabilitySlot → AvailabilitySlot × AvailabilityState
slot_state s a = (a, if is_slot_reserved a.id s then reserved else open_slot)

abbrev pub is_listed : Uuid → RangeQuery → AvailabilitySlot → Bool
is_listed user q a = a.tutor_profile_id == user && is_none a.deleted_at && range_where q a

-- `getAvailabilityPrivate`
unfoldable pub get_availability_private :
    Uuid → RangeQuery → Store → Result (List (AvailabilitySlot × AvailabilityState))
unfolding validate_range range_where order_slots
get_availability_private user q s = do
  validate_range q.from q.to
  ok (map (slot_state s) (order_slots (select (is_listed user q) s.slots)))

-- `query.from !== undefined && query.from > now ? query.from : now`
abbrev pub later_of : Option Time → Time → Time
later_of none now = now
later_of (some from) now = if ltb now from then from else now

abbrev pub is_bookable : Uuid → RangeQuery → Time → Store → AvailabilitySlot → Bool
is_bookable tutor q now s a =
    not (is_slot_reserved a.id s)
    && is_none a.deleted_at
    && leb (later_of q.from now) a.start_at
    && met (λ t. ltb a.start_at t) q.to
    && a.tutor_profile_id == tutor

-- `getAvailabilityPublic`
unfoldable pub get_availability_public :
    Uuid → RangeQuery → Time → Store → Result (List AvailabilitySlot)
unfolding validate_range find_public_tutor order_slots
get_availability_public tutor q now s = do
  validate_range q.from q.to
  or_throw (find_public_tutor tutor s) tutor_not_found
  ok (order_slots (select (is_bookable tutor q now s) s.slots))
