-- ===== src/Database/Schema/Files.antt =====
-- The rows of apps/api/prisma/schema.prisma for qualification documents and stored objects. An
-- object path, a document type and a MIME type are numbers, since the code only compares them here.
use hktutor.Shared.{ℕ, Option, Text}
use hktutor.Database.Enums.{DocumentReviewStatus, AuditAction, StoragePurpose}
use hktutor.Database.Schema.Keys.{Uuid, Time}

pub record TutorDocument : Type 0 where
  pub id : Uuid
  pub tutor_user_id : Uuid
  pub document_type : ℕ
  pub object_path : ℕ
  pub original_name : Text
  pub mime_type : ℕ
  pub size_bytes : ℕ
  pub review_status : DocumentReviewStatus
  pub reviewer_user_id : Option Uuid
  pub reviewed_at : Option Time
  pub rejection_reason : Option Text
  pub created_at : Time

pub record TutorDocumentAudit : Type 0 where
  pub document_id : Uuid
  pub actor_user_id : Uuid
  pub action : AuditAction
  pub decision : Option DocumentReviewStatus
  pub reason : Option Text
  pub created_at : Time

pub record StorageCleanupIntent : Type 0 where
  pub purpose : StoragePurpose
  pub object_path : ℕ
  pub next_attempt_at : Time
  pub attempts : ℕ
