-- ===== src/Gallery.antt =====
-- The photographer's side of a gallery: app/galleries.
pub mod Status
pub mod Share
pub mod Slots
pub mod Removal
pub mod Csv
pub mod CsvReader
pub mod CsvSafe
pub mod Export
