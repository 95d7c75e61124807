-- ===== src/Accounts.antt =====
-- The accounts of owners and administrators: app/auth and app/admin.
pub mod Auth
pub mod Admin
pub mod Removal
pub mod Administration
pub mod Signup
