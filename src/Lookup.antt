-- ===== src/Lookup.antt =====
-- Links are found by a token that the database only holds a hash of: app/auth/token_lookup.py,
-- app/auth/lookup_progress.py and the resolver of app/guest/service.py.
pub mod Scan
pub mod Complete
pub mod Follow
pub mod Admission
pub mod GalleryToken
pub mod SignupToken
pub mod Found
pub mod FoundSignup
pub mod Answered
pub mod Progress
mod Tests
