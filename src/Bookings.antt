-- ===== src/Bookings.antt =====
-- Bookings (apps/api/src/modules/bookings/bookings.service.ts).
pub mod Amounts
pub mod Selection
pub mod Create
pub mod Transition
pub mod Cancel
pub mod Attendance
pub mod MeetingLink
pub mod ClassDetail
pub mod Effects
pub mod Races
pub mod Bounds
pub mod Quotes
pub mod Outcomes
pub mod Replays
