-- ===== src/Notifications/Recipients.antt =====
-- Who is notified of an event: `write` of notification-events.service.ts.
use hktutor.Shared.{
  subst, some, none, Option-cases, ◌++◌, ◌⊎◌, ◌≢◌, any-found, count_where_pos, find-fits, refl, inl,
  inr, [], List, any, ◌≡◌, count_where, true, arith, ◌∷◌, ◌≤◌, ==_self, ==→eq, Bool-cases,
  any-eq_false, count_where-le, ◌==◌, count_where-append,
}
use hktutor.Database.Schema.{event_key, Uuid, EventKey, Notification, Store}
use hktutor.Notifications.Events.{
  insert_new, same_row, write, NotificationEvent, recipient_of, notification_of, entity_of,
}
use hktutor.Database.Results.{ok, throw, Result}
use hktutor.Database.Exceptions.{notification_not_participant}
use hktutor.Notifications.Rows.{same_key_join, insert_new-stored}

same_row_join :
    (user : Uuid) (key : EventKey) (n x : Notification)
    → same_row user key n ≡ true
    → same_row user key x ≡ true
    → same_row n.user_id n.key x ≡ true
unfolding same_row
same_row_join user key n x p q =
    ground (
      arith,
      same_key_join x.key n.key key,
      ==→eq n.user_id user,
      ==→eq x.user_id user,
      ==_self user,
    )

insert_new_unique :
    (n : Notification) (rows : List Notification) (user : Uuid) (key : EventKey)
    → count_where (same_row user key) rows ≤ 1
    → count_where (same_row user key) (insert_new n rows) ≤ 1
unfolding insert_new
insert_new_unique n rows user key unique = elim (Bool-cases (any (same_row n.user_id n.key) rows)) [
  | inl present ↦ rw present unique
  | inr absent ↦ rw absent (elim (Bool-cases (same_row user key n)) [
    | inl same ↦ ground (
      arith,
      any-eq_false (same_row n.user_id n.key) rows absent,
      count_where-le (same_row user key) (same_row n.user_id n.key) rows
          (λ x. same_row_join user key n x same),
      count_where-append (same_row user key) rows (n ∷ []),
    )
    | inr other ↦ ground (arith, count_where-append (same_row user key) rows (n ∷ []))
  ])
]

insert_new-once :
    (n : Notification) (rows : List Notification)
    → count_where (same_row n.user_id n.key) rows ≤ 1
    → count_where (same_row n.user_id n.key) (insert_new n rows) ≡ 1
insert_new-once n rows unique =
    let most = insert_new_unique n rows n.user_id n.key unique in
    let (a, found) =
      any-found (same_row n.user_id n.key) (insert_new n rows) (insert_new-stored n rows) in
    let least =
      count_where_pos (same_row n.user_id n.key) (same_row n.user_id n.key) (insert_new n rows)
        found (find-fits (same_row n.user_id n.key) (insert_new n rows) found) in
    omega arith

-- One notification of the event for the user: its key is that of the event and of the request, or of
-- the booking where the event has no request; the user has it once; and no other row has changed.
pub record IsNotified (user : Uuid) (e : NotificationEvent) (s t : Store) : Type 0 where
  pub entity : Uuid
  pub named : (e.request_id ≡ some entity) ⊎ ((e.request_id ≡ none) × (entity ≡ e.booking_id))
  pub once : count_where (same_row user (event_key e.event_type entity)) t.notifications ≡ 1
  pub framed :
      (t.notifications ≡ s.notifications)
      ⊎ ((n : Notification) × (t.notifications ≡ s.notifications ++ n ∷ [])
          × (n.user_id ≡ user)
          × (n.key ≡ event_key e.event_type entity)
          × (n.event_type ≡ e.event_type)
          × (n.booking_id ≡ e.booking_id))

entity_of-named :
    (e : NotificationEvent)
    → (e.request_id ≡ some (entity_of e)) ⊎ ((e.request_id ≡ none) × (entity_of e ≡ e.booking_id))
entity_of-named e = elim (Option-cases e.request_id) [
  | inl missing ↦ inr (missing, rw missing refl)
  | inr (r, there) ↦ inl (rw there refl)
]

insert_new-framed :
    (n : Notification) (rows : List Notification)
    → (insert_new n rows ≡ rows) ⊎ (insert_new n rows ≡ rows ++ n ∷ [])
unfolding insert_new
insert_new-framed n rows = elim (Bool-cases (any (same_row n.user_id n.key) rows)) [
  | inl present ↦ inl (rw present refl)
  | inr absent ↦ inr (rw absent refl)
]

abbrev sent_to : NotificationEvent → Store → Store
sent_to e s = record s { notifications = insert_new (notification_of e) s.notifications }

save-IsNotified :
    (e : NotificationEvent) (s : Store)
    → ((u : Uuid) (k : EventKey) → count_where (same_row u k) s.notifications ≤ 1)
    → IsNotified (recipient_of e) e s (sent_to e s)
save-IsNotified e s unique = record {
  entity = entity_of e;
  named = entity_of-named e;
  once =
      insert_new-once (notification_of e) s.notifications
        (unique (recipient_of e) (event_key e.event_type (entity_of e)));
  framed = elim (insert_new-framed (notification_of e) s.notifications) [
    | inl same ↦ inl same
    | inr more ↦ inr (notification_of e, more, refl, refl, refl, refl)
  ];
}

-- A notification goes to the participant who did not act, and once, where the table has its unique
-- key: if the student acted, the tutor has one notification of the event; if the tutor acted, the
-- student has; a user who is both gets none; and an actor who is neither throws. Nothing else
-- changes in the table.
pub write-notifies :
    (e : NotificationEvent) (s t : Store) {r : Result Unit}
    → ((u : Uuid) (k : EventKey) → count_where (same_row u k) s.notifications ≤ 1)
    → write e s ≡ (r, t)
    → (e.actor_user_id ≡ e.student_user_id)
        × (e.actor_user_id ≢ e.tutor_profile_id)
        × (r ≡ ok tt)
        × IsNotified e.tutor_profile_id e s t
      ⊎ (e.actor_user_id ≢ e.student_user_id)
        × (e.actor_user_id ≡ e.tutor_profile_id)
        × (r ≡ ok tt)
        × IsNotified e.student_user_id e s t
      ⊎ (e.actor_user_id ≡ e.student_user_id)
        × (e.actor_user_id ≡ e.tutor_profile_id)
        × (r ≡ ok tt)
        × (t ≡ s)
      ⊎ (e.actor_user_id ≢ e.student_user_id)
        × (e.actor_user_id ≢ e.tutor_profile_id)
        × (r ≡ throw notification_not_participant)
        × (t ≡ s)
unfolding write
write-notifies e s t {r} unique h =
    let sent = save-IsNotified e s unique in
    elim (Bool-cases (e.actor_user_id == e.student_user_id)) [
      | inl student ↦
          let who : recipient_of e ≡ e.tutor_profile_id = rw student refl in
          elim (Bool-cases (e.tutor_profile_id == e.actor_user_id)) [
            | inl self ↦ inr (inr (inl (ground arith, ground arith, ground arith, ground arith)))
            | inr other ↦
                let to : t ≡ sent_to e s = ground arith in
                inl (
                  ground arith,
                  λ own. ground (arith, own, ==_self e.tutor_profile_id),
                  ground arith,
                  subst (λ u. IsNotified u e s t) who (rw to sent),
                )
          ]
      | inr tutor ↦
          let who : recipient_of e ≡ e.student_user_id = rw tutor refl in
          let apart : e.actor_user_id ≢ e.student_user_id =
            λ same. ground (arith, same, ==_self e.student_user_id) in
          elim (Bool-cases (e.actor_user_id == e.tutor_profile_id)) [
            | inl own ↦
                let to : t ≡ sent_to e s = ground arith in
                inr (
                  inl (
                    apart,
                    ground arith,
                    ground arith,
                    subst (λ u. IsNotified u e s t) who (rw to sent),
                  ))
            | inr foreign ↦ inr (
                inr (
                  inr (
                    apart,
                    λ own. ground (arith, own, ==_self e.tutor_profile_id),
                    ground arith,
                    ground arith,
                  )))
          ]
    ]
