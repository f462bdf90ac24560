-- ===== src/Reschedule.antt =====
-- Reschedule requests (apps/api/src/modules/reschedule-requests/reschedule-requests.service.ts).
pub mod Access
pub mod Create
pub mod Approve
pub mod Close
pub mod Current
pub mod Effects
pub mod Moves
pub mod Offers
