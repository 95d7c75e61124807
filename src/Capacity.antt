-- ===== src/Capacity.antt =====
-- How much work a process admits at once: the counters of app/images/process_pool.py,
-- app/galleries/password_hashing.py and `legacy_token_scan` of app/auth/token_lookup.py. Each
-- counter is changed under a lock, so its changes are steps.
pub mod Images
pub mod ImagesBounds
pub mod Hashing
mod Tests
