-- ===== src/Reschedule/Access.antt =====
-- reschedule-requests.service.ts: `assertActiveUserWithConsent`, the lock of a request's booking,
-- and the tests that the handlers share.
use hktutor.Shared.{
  ℕ, String, Bool, false, not, Option, none, some, ◌*◌, ◌&&◌, ◌||◌, ◌==◌, ltb, is_some,
}
use text.Mathlib.Text.{◌==◌ as str_eq}
use hktutor.Database.Enums.{is_account_active}
use hktutor.Database.Schema.{Uuid, Store, User, Booking, AvailabilitySlot, RescheduleRequest}
use hktutor.Database.Exceptions.{
  account_not_active, privacy_consent_required, reschedule_request_not_found,
}
use hktutor.Database.Results.{Result, ok, ◌>>=◌, ◌>>◌, or_throw, throw_if}
use hktutor.Database.Queries.{find_user, find_request, find_booking}

-- `RESCHEDULE_CUTOFF_MS`
abbrev pub reschedule_cutoff : ℕ
reschedule_cutoff = 24 * 60 * 60 * 1000

-- `CURRENT_PRIVACY_POLICY_VERSION` (auth/auth.constants.ts)
abbrev pub current_policy_version : String
current_policy_version = "2026-09-30"

abbrev pub is_active_user : Option User → Bool
is_active_user none = false
is_active_user (some u) = is_account_active u.account_status && not (is_some u.deleted_at)

abbrev pub is_current_policy : Option String → Bool
is_current_policy none = false
is_current_policy (some v) = str_eq v current_policy_version

abbrev pub has_consent : Option User → Bool
has_consent none = false
has_consent (some u) = is_current_policy u.policy_version

-- `assertActiveUserWithConsent`
unfoldable pub assert_active_user_with_consent : Uuid → Store → Result (Unit {0})
assert_active_user_with_consent user_id s = do
  throw_if (not (is_active_user (find_user user_id s))) account_not_active
  throw_if (not (has_consent (find_user user_id s))) privacy_consent_required

-- `[a.start, a.end)` and `[b.start, b.end)` meet.
abbrev pub overlaps : AvailabilitySlot → AvailabilitySlot → Bool
overlaps a b = ltb a.start_at b.end_at && ltb b.start_at a.end_at

abbrev pub is_participant : Uuid → Booking → Bool
is_participant user b = b.student_user_id == user || b.tutor_profile_id == user

-- `lockRequestBooking`, and the request that is read again under the lock. The booking is behind a
-- foreign key of the request.
unfoldable pub read_locked_request : Uuid → Store → Result (RescheduleRequest × Booking)
read_locked_request i s = do
  request ← or_throw (find_request i s) reschedule_request_not_found
  booking ← or_throw (find_booking request.booking_id s) reschedule_request_not_found
  ok (request, booking)
