-- ===== src/Notifications.antt =====
-- Notifications (apps/api/src/modules/notifications): the rows that a handler writes for the other
-- participant of a booking, and the reminders of a class and of a payment.
pub mod Events
pub mod Reminders
pub mod Bands
pub mod Rows
pub mod Recipients
pub mod Run
pub mod Frames
pub mod Scanned
pub mod Scan
