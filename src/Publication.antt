-- ===== src/Publication.antt =====
-- `publish`, `reconcile_publication`, `_publication_update` and `_finalize_publication` of
-- orch/core.py.
mod Defs
pub mod Ends
pub mod Refines
pub mod Reconcile
pub mod Stages
pub mod Reconciles
unfoldable pub use Defs.*
