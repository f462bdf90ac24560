-- ===== src/Accounts.antt =====
-- apps/api/src/modules/auth: sessions, verification and reset of the password.
pub mod Sessions
pub mod Rotation
pub mod Passwords
pub mod Emails
pub mod Login
pub mod Access
pub mod Reset
pub mod Admitted
pub mod Ends
pub mod Issues
pub mod SignIn
pub mod Verification
pub mod Registration
