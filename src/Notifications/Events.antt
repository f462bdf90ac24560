-- ===== src/Notifications/Events.antt =====
-- notification-events.service.ts: `write` and `writeReminders`.
use hktutor.Shared.{
  ℕ, false, ◌+◌, ◌*◌, Bool, false, Option, none, some, List, [], ◌∷◌, ◌++◌, ◌&&◌, ◌==◌, ◌!=◌, any,
  if◌then◌else◌,
}
use hktutor.Database.Schema.{
  ReminderBand, ReminderKind, band_24h, band_1h, class_reminder, payment_reminder, booking_created,
  booking_confirmed, booking_rejected, booking_canceled, reschedule_requested, reschedule_approved,
  reschedule_rejected, reschedule_withdrawn, reminder, reminder_key, Uuid, EventType, EventKey,
  event_key, Notification,
}
use hktutor.Database.Exceptions.{notification_not_participant}
use hktutor.Database.Results.{ok}
use hktutor.Database.Actions.{Action, pure, ◌>>◌, fail_if}

abbrev pub band_code : ReminderBand → ℕ
band_code band_24h = 0
band_code band_1h = 1

abbrev pub kind_code : ReminderKind → ℕ
kind_code class_reminder = 0
kind_code payment_reminder = 1

abbrev pub type_code : EventType → ℕ
type_code booking_created = 0
type_code booking_confirmed = 1
type_code booking_rejected = 2
type_code booking_canceled = 3
type_code reschedule_requested = 4
type_code reschedule_approved = 5
type_code reschedule_rejected = 6
type_code reschedule_withdrawn = 7
type_code (reminder kind band) = 8 + 2 * kind_code kind + band_code band

-- Whether two keys are the same text.
unfoldable pub same_key : EventKey → EventKey → Bool
same_key (event_key t i) (event_key u j) = type_code t == type_code u && i == j
same_key (reminder_key b i t d k) (reminder_key c j u e l) =
    b == c && i == j && t == u && band_code d == band_code e && kind_code k == kind_code l
same_key _ _ = false

-- The unique key `Notification_userId_eventKey_key`.
unfoldable pub same_row : Uuid → EventKey → Notification → Bool
unfolding same_key
same_row user key n = n.user_id == user && same_key n.key key

-- `createMany` of one row, with `skipDuplicates`.
unfoldable pub insert_new : Notification → List Notification → List Notification
insert_new n rows = if any (same_row n.user_id n.key) rows then rows else rows ++ n ∷ []

abbrev pub save : Notification → Action (Unit {0})
save n s = (ok tt, record s { notifications = insert_new n s.notifications })

-- `NotificationEvent`, with the `requestId` that only the events of a reschedule have.
pub record NotificationEvent : Type 0 where
  pub actor_user_id : Uuid
  pub booking_id : Uuid
  pub student_user_id : Uuid
  pub tutor_profile_id : Uuid
  pub event_type : EventType
  pub request_id : Option Uuid

abbrev pub entity_of : NotificationEvent → Uuid
entity_of e = elim e.request_id [ none ↦ e.booking_id | some r ↦ r ]

-- The participant who did not act.
abbrev pub recipient_of : NotificationEvent → Uuid
recipient_of e =
    if e.actor_user_id == e.student_user_id then e.tutor_profile_id else e.student_user_id

abbrev pub notification_of : NotificationEvent → Notification
notification_of e = record {
  user_id = recipient_of e;
  key = event_key e.event_type (entity_of e);
  event_type = e.event_type;
  booking_id = e.booking_id;
}

unfoldable pub write : NotificationEvent → Action (Unit {0})
write e = do
  fail_if (e.actor_user_id != e.student_user_id && e.actor_user_id != e.tutor_profile_id)
      notification_not_participant
  if recipient_of e == e.actor_user_id then pure tt else save (notification_of e)
