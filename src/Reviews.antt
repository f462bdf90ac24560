-- ===== src/Reviews.antt =====
-- apps/api/src/modules/reviews: the reviews of completed bookings, the rating that a tutor's
-- profile caches of them, and the public list.
pub mod Ratings
pub mod Checks
pub mod Create
pub mod Effects
pub mod Once
pub mod Sums
pub mod Cache
pub mod Averages
pub mod Lists
pub mod Pages
