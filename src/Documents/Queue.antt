-- ===== src/Documents/Queue.antt =====
-- qualification-documents.service.ts: `queue`.
use hktutor.Shared.{none, some, ℕ, Option, Bool, not, true, false, ◌&&◌, leb}
use hktutor.Database.Enums.{DocumentReviewStatus}
use hktutor.Database.Results.{Result, ok, ◌>>=◌, ◌>>◌, throw_if}
use hktutor.Database.Schema.{TutorDocument, Store}
use hktutor.Documents.Statuses.{QualificationStatus, to_review_status}
use hktutor.Paging.Keys.{Key, is_earlier}
use hktutor.Paging.Pages.{read_page, Page}
use hktutor.Documents.Checks.{DocumentUser, is_admin}
use hktutor.Bookings.Selection.{is_active_tutor}
use hktutor.Database.Queries.{find_user}
use hktutor.Database.Exceptions.{documents_forbidden, invalid_queue_cursor, invalid_queue_limit}
use hktutor.Bookings.Amounts.{or_default}

abbrev pub document_key : TutorDocument → Key
document_key d = record { time = d.created_at; id = d.id }

unfoldable pub same_status : DocumentReviewStatus → DocumentReviewStatus → Bool
same_status DocumentReviewStatus.pending DocumentReviewStatus.pending = true
same_status DocumentReviewStatus.verified DocumentReviewStatus.verified = true
same_status DocumentReviewStatus.rejected DocumentReviewStatus.rejected = true
same_status _ _ = false

-- `where` of `queue`
abbrev pub is_queued : QualificationStatus → Store → TutorDocument → Bool
is_queued status s d =
    is_active_tutor (find_user d.tutor_user_id s)
    && same_status d.review_status (to_review_status status)

-- `QualificationCursor`
pub record QualificationCursor : Type 0 where
  pub key : Key
  pub status : QualificationStatus

-- `decodeQualificationCursor`: `value.status !== status`
unfoldable pub read_queue_cursor :
    QualificationStatus → Option QualificationCursor → Result (Option Key)
unfolding same_status
read_queue_cursor status none = ok none
read_queue_cursor status (some c) = do
  throw_if (not (same_status (to_review_status c.status) (to_review_status status)))
      invalid_queue_cursor
  ok (some c.key)

-- `query.status ?? QualificationStatus.PENDING`
abbrev pub or_pending : Option QualificationStatus → QualificationStatus
or_pending none = QualificationStatus.pending
or_pending (some status) = status

-- `queue`: the page of documents, and the key of the next one.
unfoldable pub queue :
    DocumentUser
    → Option QualificationStatus
    → Option QualificationCursor
    → Option ℕ
    → Store
    → Result (Page TutorDocument)
unfolding read_queue_cursor read_page same_status
queue user status cursor limit s = do
  throw_if (not (is_admin user.role)) documents_forbidden
  throw_if (not (leb 1 (or_default limit 20) && leb (or_default limit 20) 100)) invalid_queue_limit
  key ← read_queue_cursor (or_pending status) cursor
  ok (
      read_page document_key is_earlier (is_queued (or_pending status) s) (or_default limit 20) key
        s.documents)
