-- ===== src/System/Keeps.antt =====
-- Each operation keeps the invariant.
pub mod Updates
pub mod Bookings
pub mod Reschedule
pub mod Payments
pub mod Settlement
pub mod Release
