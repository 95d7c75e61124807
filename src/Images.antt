-- ===== src/Images.antt =====
-- Uploaded images: app/images.
pub mod Upload
pub mod Deletion
pub mod Previews
