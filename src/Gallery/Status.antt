-- ===== src/Gallery/Status.antt =====
-- `change_gallery_status` of app/galleries/management.py, the state machine of a gallery, and the
-- life cycle as a relation.
mod Defs
mod Tests
pub mod Graph
pub use Defs.{Error, not_found, no_transition, no_share_link}
unfoldable pub use Defs.{change_gallery_status, status_eq}
