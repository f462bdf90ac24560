-- ===== src/Documents.antt =====
-- apps/api/src/modules/qualification-documents: the statuses of documents and of their tutor, the
-- review of a document, and the queue of documents.
pub mod Statuses
pub mod Checks
pub mod Review
pub mod Derived
pub mod Decided
pub mod Queue
