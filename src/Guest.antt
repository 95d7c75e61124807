-- ===== src/Guest.antt =====
-- The guest's side of a shared gallery: app/guest.
pub mod Access
pub mod Sessions
pub mod Review
pub mod Credentials
pub mod PageOrder
pub mod Pages
