-- ===== src/Availability/Overlap.antt =====
-- The overlap test of `postAvailability`.
use hktutor.Shared.{
  inl, inr, [], ◌∷◌, List, All, Bool, any, is_none, ◌≡◌, Option, false, ◌&&◌, ◌++◌, ◌==◌,
  All-append, arith, ◌⊎◌,
}
use hktutor.Database.Schema.{AvailabilitySlot, Uuid, Store}
use hktutor.Availability.Slots.{PostInput, post_availability, meets, new_slot}
use hktutor.Database.Values.{Value}
use hktutor.Reschedule.Access.{overlaps}

-- Two live slots of one tutor share a time.
abbrev pub clashes : AvailabilitySlot → AvailabilitySlot → Bool
clashes a b =
    is_none a.deleted_at
    && is_none b.deleted_at
    && a.tutor_profile_id == b.tutor_profile_id
    && overlaps a b

abbrev pub IsDisjoint : List AvailabilitySlot → Type 0
IsDisjoint [] = Unit
IsDisjoint (a ∷ rest) = All (λ b. clashes a b ≡ false) rest × IsDisjoint rest

any-All :
    (input : PostInput) (id : Uuid) (xs : List AvailabilitySlot)
    → any (meets input) xs ≡ false
    → All (λ a. clashes a (new_slot id input) ≡ false) xs
any-All input id [] h = tt
any-All input id (x ∷ xs) h = (ground arith, any-All input id xs (ground arith))

IsDisjoint-append :
    (xs : List AvailabilitySlot) (y : AvailabilitySlot)
    → IsDisjoint xs
    → All (λ a. clashes a y ≡ false) xs
    → IsDisjoint (xs ++ y ∷ [])
IsDisjoint-append [] y h p = (tt, tt)
IsDisjoint-append (x ∷ xs) y h p =
    (All-append (λ b. clashes x b ≡ false) xs y h.0 p.0, IsDisjoint-append xs y h.1 p.1)

post-slots :
    (names_constraint : Value → Bool) (input : PostInput) (id : Uuid) (s : Store)
    (refusal : Option Value)
    → let t = (post_availability names_constraint input id s refusal s).1 in
      (t.slots ≡ s.slots)
      ⊎ (any (meets input) s.slots ≡ false) × (t.slots ≡ s.slots ++ new_slot id input ∷ [])
unfolding post_availability
post-slots names_constraint input id s refusal = ground arith

-- Where the live slots of each tutor do not overlap, they do not overlap behind a posted slot
-- either, whatever the operation returns, if no other request commits between its overlap test and
-- its insert.
pub post_availability-IsDisjoint :
    (names_constraint : Value → Bool) (input : PostInput) (id : Uuid) (s : Store)
    (refusal : Option Value)
    → IsDisjoint s.slots
    → IsDisjoint (post_availability names_constraint input id s refusal s).1.slots
post_availability-IsDisjoint names_constraint input id s refusal h =
    elim (post-slots names_constraint input id s refusal) [
      | inl same ↦ rw same h
      | inr (free, added) ↦
          rw added (IsDisjoint-append s.slots (new_slot id input) h (any-All input id s.slots free))
    ]
