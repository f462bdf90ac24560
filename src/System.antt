-- ===== src/System.antt =====
-- The components together: requests of any kind, in any order, on one database.
pub mod Invariant
pub mod Keeps
pub mod Steps
