-- ===== src/Availability.antt =====
-- Availability slots of a tutor (apps/api/src/modules/tutors/tutor-availability.service.ts).
pub mod Ranges
pub mod Slots
pub mod Listing
pub mod Overlap
