-- ===== src/Documents/Checks.antt =====
-- qualification-documents.service.ts: the checks that `review` makes ahead of its transaction.
use hktutor.Shared.{
  [], ◌∷◌, none, some, ℕ, Bool, Option, Text, trim, if◌then◌else◌, not, true, false, leb, ltb, ◌&&◌,
  ◌+◌,
}
use hktutor.Database.Enums.{Role}
use hktutor.Database.Results.{Result, ◌>>◌, throw_if}
use hktutor.Database.Schema.{Uuid}
use hktutor.Database.Exceptions.{documents_forbidden, invalid_review_reason}

-- `AuthenticatedUser`
pub record DocumentUser : Type 0 where
  pub id : Uuid
  pub role : Role

pub data QualificationDecision : Type 0 where
  approved rejected : QualificationDecision

pub record ReviewDecision : Type 0 where
  pub document_id : Uuid
  pub decision : QualificationDecision
  pub reason : Option Text

abbrev pub is_approval : QualificationDecision → Bool
is_approval QualificationDecision.approved = true
is_approval QualificationDecision.rejected = false

abbrev pub is_admin : Role → Bool
is_admin Role.admin = true
is_admin _ = false

-- `Array.from(text).length`: a pair of surrogates counts once.
unfoldable pub code_points : Text → ℕ
code_points [] = 0
code_points (c ∷ []) = 1
code_points (c ∷ d ∷ cs) =
    let rest = code_points (d ∷ cs) in
    let behind = code_points cs in
    if leb 0xd800 c && leb c 0xdbff && leb 0xdc00 d && leb d 0xdfff then behind + 1 else rest + 1

-- `!reason || Array.from(reason).length > 500`
unfoldable pub is_bad_reason : Text → Bool
unfolding code_points
is_bad_reason [] = true
is_bad_reason (c ∷ cs) = ltb 500 (code_points (c ∷ cs))

-- `dto.reason?.trim()`
unfoldable pub trimmed : Option Text → Option Text
unfolding trim
trimmed none = none
trimmed (some t) = some (trim t)

unfoldable pub is_invalid_reason : QualificationDecision → Option Text → Bool
unfolding is_bad_reason
is_invalid_reason decision none = not (is_approval decision)
is_invalid_reason decision (some reason) = is_bad_reason reason

-- `assertRole`, and the test of the reason
unfoldable pub check_review : DocumentUser → ReviewDecision → Result (Unit {0})
unfolding is_invalid_reason trimmed
check_review user dto = do
  throw_if (not (is_admin user.role)) documents_forbidden
  throw_if (is_invalid_reason dto.decision (trimmed dto.reason)) invalid_review_reason
