-- ===== src/Database/Schema/Keys.antt =====
-- The columns of type uuid and timestamptz of apps/api/prisma/schema.prisma.
use hktutor.Shared.{ℕ}

abbrev pub Uuid : Type 0
Uuid = ℕ

abbrev pub Time : Type 0
Time = ℕ
