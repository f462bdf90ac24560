-- ===== src/Tests.antt =====
-- Runs of the handlers on small tables.
mod Data
mod Bookings
mod Payments
mod Others
mod Reviews
mod Accounts
mod Documents
mod Reminders
