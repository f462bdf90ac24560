-- ===== src/Bookings/MeetingLink.antt =====
-- bookings.service.ts: `isValidMeetingUrl` and `updateMeetingLink`.
use hktutor.Shared.{
  ℕ, Bool, true, false, not, Option, none, some, [], ◌∷◌, ◌+◌, ◌&&◌, ◌||◌, ◌==◌, ◌!=◌, leb, Text,
  is_space, trim, any, if◌then◌else◌,
}
use hktutor.Database.Enums.{BookingStatus, is_paid}
use hktutor.Database.Values.{Value, booking_conflict_codes, record_not_found}
use hktutor.Database.Schema.{Uuid, Store, Booking}
use hktutor.Database.Exceptions.{
  booking_not_found, booking_not_paid, invalid_url, meeting_link_not_editable,
  booking_transition_conflict, thrown,
}
use hktutor.Database.Results.{or_throw}
use hktutor.Database.Actions.{
  Action, ◌>>=◌, ◌>>◌, pure, reads, fail_if, update_bookings, transaction, catch_conflict,
}
use hktutor.Database.Queries.{find_booking}

-- `MEETING_LINK_STATUSES.includes(status)`
abbrev pub has_meeting_link : BookingStatus → Bool
has_meeting_link BookingStatus.confirmed = true
has_meeting_link BookingStatus.completed = true
has_meeting_link _ = false

unfoldable pub same_text : Text → Text → Bool
same_text [] [] = true
same_text (c ∷ cs) (d ∷ ds) = c == d && same_text cs ds
same_text _ _ = false

abbrev pub lower : ℕ → ℕ
lower c = if leb b'A' c && leb c b'Z' then c + 32 else c

-- The text behind a prefix that is matched without regard to case.
unfoldable pub after_prefix : Text → Text → Option Text
after_prefix [] t = some t
after_prefix (p ∷ ps) [] = none
after_prefix (p ∷ ps) (c ∷ cs) = if lower c == p then after_prefix ps cs else none

-- `[/?#]`
abbrev pub is_delimiter : ℕ → Bool
is_delimiter c = c == b'/' || c == b'?' || c == b'#'

-- What `.` does not match.
abbrev pub is_line_end : ℕ → Bool
is_line_end c = c == 10 || c == 13 || c == 0x2028 || c == 0x2029

-- `([/?#].*)?$` behind one character of `[^\s/?#]+`, which goes on until a delimiter or the end.
unfoldable pub rest_matches : Text → Bool
unfolding is_space
rest_matches [] = true
rest_matches (c ∷ cs) =
    if is_delimiter c then not (any is_line_end cs) else not (is_space c) && rest_matches cs

abbrev pub authority_matches : Option Text → Bool
authority_matches none = false
authority_matches (some []) = false
authority_matches (some (c ∷ cs)) = not (is_space c) && not (is_delimiter c) && rest_matches cs

abbrev pub https_prefix : Text
https_prefix = b'h' ∷ b't' ∷ b't' ∷ b'p' ∷ b's' ∷ b':' ∷ b'/' ∷ b'/' ∷ []

-- `HTTPS_MEETING_URL_PATTERN`
unfoldable pub matches_https_pattern : Text → Bool
unfolding after_prefix rest_matches is_space
matches_https_pattern t = authority_matches (after_prefix https_prefix t)

-- `UNSAFE_MEETING_URL_CHARACTERS`: white space, control characters and bidirectional marks.
unfoldable pub is_unsafe : ℕ → Bool
unfolding is_space
is_unsafe c =
    is_space c
    || leb c 0x1f
    || leb 0x7f c && leb c 0x9f
    || c == 0x200e
    || c == 0x200f
    || leb 0x202a c && leb c 0x202e
    || leb 0x2066 c && leb c 0x2069

-- What `new URL` yields; `none` where it throws.
pub record Url : Type 0 where
  pub is_https : Bool
  pub hostname : Text
  pub username : Text
  pub password : Text

abbrev pub is_nil : Text → Bool
is_nil [] = true
is_nil (_ ∷ _) = false

abbrev pub is_safe_url : Option Url → Bool
is_safe_url none = false
is_safe_url (some u) =
    u.is_https && not (is_nil u.hostname) && is_nil u.username && is_nil u.password

pub record MeetingLinkInput : Type 0 where
  pub booking_id : Uuid
  pub meeting_url : Text

abbrev pub is_linkable : MeetingLinkInput → Booking → Bool
is_linkable input b =
    b.id == input.booking_id && is_paid b.payment_status && has_meeting_link b.status

pub record MeetingLinkResponse : Type 0 where
  pub booking_id : Uuid
  pub meeting_url : Option Text

-- `URL` is the platform's.
module _ (parse_url : Text → Option Url) where
  -- `isValidMeetingUrl`
  unfoldable pub is_valid_meeting_url : Text → Bool
  unfolding same_text trim matches_https_pattern is_unsafe
  is_valid_meeting_url t =
      same_text t (trim t)
      && matches_https_pattern t
      && not (any is_unsafe t)
      && is_safe_url (parse_url t)

  -- `updateMeetingLink`. `seen` is the store when the row was read, ahead of the transaction.
  unfoldable pub update_meeting_link :
      MeetingLinkInput → Store → Option Value → Action MeetingLinkResponse
  update_meeting_link input seen refusal = do
    fail_if (not (is_valid_meeting_url input.meeting_url)) invalid_url
    booking ← reads (λ _. or_throw (find_booking input.booking_id seen) booking_not_found)
    fail_if (not (has_meeting_link booking.status)) (meeting_link_not_editable booking.status)
    fail_if (not (is_paid booking.payment_status)) booking_not_paid
    catch_conflict booking_conflict_codes booking_transition_conflict (
        transaction refusal do
          count ←
              update_bookings (is_linkable input)
                (λ b. record b { meeting_url = some input.meeting_url })
          fail_if (count != 1) booking_transition_conflict
          updated ←
              reads (λ s. or_throw (find_booking input.booking_id s) (thrown record_not_found))
          pure (record { booking_id = updated.id; meeting_url = updated.meeting_url }))
