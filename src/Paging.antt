-- ===== src/Paging.antt =====
-- Keyset pages, as reminder-job.service.ts, reviews.service.ts and qualification-documents.service.ts
-- (apps/api/src/modules) read them: rows ordered by a time and an id behind a cursor, and the pages of a
-- list that reads one row more than it shows.
pub mod Keys
pub mod Pages
pub mod Order
pub mod Complete
