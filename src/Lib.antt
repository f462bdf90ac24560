-- ===== src/Lib.antt =====
-- HKTutor: the core of the API, from signing in and the choice of a slot to the paid, attended and
-- reviewed class.
--
-- The API is a NestJS application over PostgreSQL. Its services share the tables of
-- apps/api/prisma/schema.prisma: a student books a tutor's slot, the tutor confirms or rejects, the
-- student pays by PromptPay, either side cancels or asks to move the class, and the tutor records
-- the attendance; the student then reviews the class. Each step of a booking notifies the other
-- side, and a job sends reminders. A tutor is public once an administrator has verified one of the
-- tutor's documents. The services only meet in the tables, each within a transaction of its own.
--
-- Files and the code they model (paths under apps/api/src/modules unless they say otherwise):
--   Database/*       apps/api/prisma/schema.prisma: enums (Enums), rows (Schema), the store of all
--                    tables; values that are thrown (Values), the exceptions of the services
--                    (Exceptions), results and transactions (Results, Actions), queries (Queries)
--   Bookings/*       bookings/bookings.service.ts: Amounts (deriveBookingAmounts), Selection
--                    (getQuote, validateBookingSelection; publicTutorWhere of
--                    tutors/public-tutor-access.ts), Create (create), Transition
--                    (confirmTutorBooking, rejectTutorBooking), Cancel (cancelBooking), Attendance
--                    (updateAttendance), MeetingLink (updateMeetingLink), ClassDetail
--                    (getBookingClassDetail)
--   Reschedule/*     reschedule-requests/reschedule-requests.service.ts: Create, Current
--                    (getCurrent), Approve, Close (reject, withdraw), Access (what they share)
--   Payments/*       payments/payments.service.ts: Create, Settlement (getStatus, webhook,
--                    applyCharge), Attempts (response); Charges has the data of
--                    apps/api/src/infrastructure/payments/omise.service.ts
--   Availability/*   tutors/tutor-availability.service.ts: Ranges (the two lists), Slots (post and
--                    delete)
--   Notifications/*  notifications/notification-events.service.ts (Events), reminder-policy.ts and
--                    remindBooking of reminder-job.service.ts (Reminders), its runOnce (Run)
--   Reviews/*        reviews/review-ratings.ts (Ratings), reviews/reviews.service.ts (Checks, Create,
--                    Lists) and the cursor of reviews/reviews.cursor.ts (Lists)
--   Accounts/*       auth/auth.service.ts: Sessions (createSession, rotateSession, refresh, logout),
--                    Passwords (issuePasswordReset, resetPassword), Emails (verifyEmail,
--                    resendVerification), Login (login), Registration (register,
--                    acceptPrivacyNotice); Access is auth/access-session.ts
--   Documents/*      qualification-documents/qualification-documents.model.ts (Statuses) and
--                    qualification-documents.service.ts: Checks and Review (review), Queue (queue)
--   Paging/*         the keyset pages that several services read: a key of a time and an id (Keys),
--                    the query and the page (Pages), ordered rows (Order), all pages (Complete)
--   System/*         the services together: Invariant, its preservation by each operation (Keeps),
--                    the transactions as steps (Steps)
--   Shared/*         Boolean tests, tables as lists with `find`, `count_where` and `update_where`
--   Tests/*          runs on small tables
--
-- Correspondence. A table is the list of its rows; `findUnique` and `findFirst` give the first row
-- that fits, `updateMany` rewrites all that fit and returns their number. A handler is an action: a
-- function of the store to a result or an exception and the store behind it. A transaction that
-- throws leaves no write, and runs at once: the row locks (`SELECT ... FOR UPDATE`) that the source
-- takes serialize it against those it could conflict with. The database may refuse any transaction,
-- which is a parameter (`refusal`): the value that the client then throws. What a handler reads
-- outside a transaction, or before it holds a lock, it reads from a store `seen` that may be older
-- than, or unrelated to, the store that it writes; where other requests may commit in the middle of
-- a handler, they are a function of the store (`others`). Times of the clock, ids that `randomUUID`
-- or the database makes, the payment provider's answers, the platform's URL parser and the search of
-- a constraint's name in an error's message are parameters.
--
-- Numbers. Ids and opaque codes are numbers, as they are only compared. Times are milliseconds
-- since the epoch and money is in hundredths, both in ℕ, which holds them exactly; the source's
-- times are below 2 ^ 53, and its amounts are Decimal(10, 2). Differences of times are compared by
-- a sum, since subtraction stops at 0. Loops run over lists and need no fuel; a client that follows
-- the cursors of a list has fuel, and so has the run of the reminder job: one more than the number
-- of rows of the list, or of due bookings, is enough.
--
-- Not modelled: conversations, uploads and avatars, the tutor directory, profiles, the lists of
-- bookings, the batch that rebuilds all ratings, what interleaves with a run of the reminder job, HTTP,
-- the parsing of requests and cursors, the provider's client, the triggers and constraints of the
-- migrations, and the web client. Digests, signed tokens and password hashes are parameters.
pub mod Shared
pub mod Database
pub mod Paging
pub mod Notifications
pub mod Reviews
pub mod Accounts
pub mod Documents
pub mod Bookings
pub mod Reschedule
pub mod Payments
pub mod Availability
pub mod System
pub mod Tests
