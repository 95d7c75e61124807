-- ===== src/Storage.antt =====
-- The storage accounting of app/storage.
pub mod Quota
