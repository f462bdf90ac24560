-- ===== src/Database/Actions.antt =====
-- The steps of a handler that write, on the whole store. A transaction that throws leaves no write
-- behind; the database may refuse any transaction, for which it throws a value of its own.
use hktutor.Shared.{
  ℕ, String, Bool, Option, none, some, List, [], ◌∷◌, ◌++◌, count_where, update_where,
  if◌then◌else◌,
}
use hktutor.Database.Values.{Value, is_conflict_among}
use hktutor.Database.Exceptions.{Exception, thrown}
use hktutor.Database.Results.{Result, ok, throw}
use hktutor.Database.Schema.{
  Store, AvailabilitySlot, Booking, PaymentAttempt, RescheduleRequest, AuthSession, OneTimeToken,
  TutorProfile, User, TutorDocument, TutorDocumentAudit,
}

abbrev pub Action : Type 0 → Type 0
Action A = Store → Result A × Store

infixl 5 ◌>>=◌ ◌>>◌
abbrev pub ◌>>=◌ : {A B : Type 0} → Action A → (A → Action B) → Action B
◌>>=◌ m f s = let (r, t) = m s in elim r [ ok a ↦ f a t | throw e ↦ (throw e, t) ]

abbrev pub ◌>>◌ : {A B : Type 0} → Action A → Action B → Action B
m >> k = m >>= λ _. k

abbrev pub pure : {A : Type 0} → A → Action A
pure a s = (ok a, s)

-- A step that only reads, of the store at hand.
abbrev pub reads : {A : Type 0} → (Store → Result A) → Action A
reads f s = (f s, s)

abbrev pub fail_if : Bool → Exception → Action (Unit {0})
fail_if b e s = (if b then throw e else ok tt, s)

-- `updateMany` returns the number of rows that met its `where`.
abbrev pub update_bookings : (Booking → Bool) → (Booking → Booking) → Action ℕ
update_bookings w f s =
    (ok (count_where w s.bookings), record s { bookings = update_where w f s.bookings })

abbrev pub update_requests :
    (RescheduleRequest → Bool) → (RescheduleRequest → RescheduleRequest) → Action ℕ
update_requests w f s =
    (ok (count_where w s.requests), record s { requests = update_where w f s.requests })

abbrev pub update_attempts : (PaymentAttempt → Bool) → (PaymentAttempt → PaymentAttempt) → Action ℕ
update_attempts w f s =
    (ok (count_where w s.attempts), record s { attempts = update_where w f s.attempts })

abbrev pub update_slots :
    (AvailabilitySlot → Bool) → (AvailabilitySlot → AvailabilitySlot) → Action ℕ
update_slots w f s = (ok (count_where w s.slots), record s { slots = update_where w f s.slots })

abbrev pub insert_booking : Booking → Action Booking
insert_booking b s = (ok b, record s { bookings = s.bookings ++ b ∷ [] })

abbrev pub insert_request : RescheduleRequest → Action RescheduleRequest
insert_request r s = (ok r, record s { requests = s.requests ++ r ∷ [] })

abbrev pub insert_attempt : PaymentAttempt → Action PaymentAttempt
insert_attempt a s = (ok a, record s { attempts = s.attempts ++ a ∷ [] })

abbrev pub insert_slot : AvailabilitySlot → Action AvailabilitySlot
insert_slot a s = (ok a, record s { slots = s.slots ++ a ∷ [] })

abbrev pub update_profiles : (TutorProfile → Bool) → (TutorProfile → TutorProfile) → Action ℕ
update_profiles w f s = (
  ok (count_where w s.tutor_profiles),
  record s { tutor_profiles = update_where w f s.tutor_profiles },
)

abbrev pub update_users : (User → Bool) → (User → User) → Action ℕ
update_users w f s = (ok (count_where w s.users), record s { users = update_where w f s.users })

abbrev pub insert_user : User → Action User
insert_user u s = (ok u, record s { users = s.users ++ u ∷ [] })

abbrev pub update_verification_tokens :
    (OneTimeToken → Bool) → (OneTimeToken → OneTimeToken) → Action ℕ
update_verification_tokens w f s = (
  ok (count_where w s.verification_tokens),
  record s { verification_tokens = update_where w f s.verification_tokens },
)

abbrev pub update_reset_tokens : (OneTimeToken → Bool) → (OneTimeToken → OneTimeToken) → Action ℕ
update_reset_tokens w f s =
    (ok (count_where w s.reset_tokens), record s { reset_tokens = update_where w f s.reset_tokens })

abbrev pub update_sessions : (AuthSession → Bool) → (AuthSession → AuthSession) → Action ℕ
update_sessions w f s =
    (ok (count_where w s.sessions), record s { sessions = update_where w f s.sessions })

abbrev pub insert_verification_token : OneTimeToken → Action (Unit {0})
insert_verification_token a s =
    (ok tt, record s { verification_tokens = s.verification_tokens ++ a ∷ [] })

abbrev pub insert_reset_token : OneTimeToken → Action (Unit {0})
insert_reset_token a s = (ok tt, record s { reset_tokens = s.reset_tokens ++ a ∷ [] })

abbrev pub insert_session : AuthSession → Action (Unit {0})
insert_session a s = (ok tt, record s { sessions = s.sessions ++ a ∷ [] })

abbrev pub update_documents : (TutorDocument → Bool) → (TutorDocument → TutorDocument) → Action ℕ
update_documents w f s =
    (ok (count_where w s.documents), record s { documents = update_where w f s.documents })

abbrev pub insert_audit : TutorDocumentAudit → Action (Unit {0})
insert_audit a s = (ok tt, record s { audits = s.audits ++ a ∷ [] })

-- What a body that began at a store leaves of it.
abbrev pub rollback : {A : Type 0} → Store → Result A × Store → Result A × Store
rollback s (ok a, t) = (ok a, t)
rollback s (throw e, t) = (throw e, s)

-- `$transaction`, where the database goes along with it or throws the given value.
abbrev pub transaction : {A : Type 0} → Option Value → Action A → Action A
transaction none m s = rollback s (m s)
transaction (some v) m s = (throw (thrown v), s)

-- `catch (error) { if (isDatabaseConflict(error)) throw e; throw error; }`
abbrev pub map_conflict : {A : Type 0} → List String → Exception → Result A → Result A
map_conflict codes e (throw (thrown v)) =
    if is_conflict_among codes v then throw e else throw (thrown v)
map_conflict codes e r = r

abbrev pub catch_conflict : {A : Type 0} → List String → Exception → Action A → Action A
catch_conflict codes e m s = let (r, t) = m s in (map_conflict codes e r, t)

-- Other requests commit while a handler awaits something outside of a transaction.
abbrev pub interleave : (Store → Store) → Action (Unit {0})
interleave others s = (ok tt, others s)
