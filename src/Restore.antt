-- ===== src/Restore.antt =====
-- Restoring a backup: app/cli.
pub mod Archive
