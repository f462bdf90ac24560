-- ===== src/Payments.antt =====
-- Payments (apps/api/src/modules/payments/payments.service.ts).
pub mod Charges
pub mod Attempts
pub mod Settlement
pub mod Create
pub mod Effects
pub mod Races
pub mod Replays
