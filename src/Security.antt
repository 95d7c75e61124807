-- ===== src/Security.antt =====
-- What stands before every request: app/security.
pub mod BodyLimit
pub mod Csrf
pub mod Captcha
