-- ===== src/Database.antt =====
-- The database of the API (apps/api/prisma/schema.prisma) as one record of tables, the exceptions
-- that handlers throw, and the actions that read and write it.
pub mod Enums
pub mod Schema
pub mod Values
pub mod Exceptions
pub mod Results
pub mod Actions
pub mod Queries
