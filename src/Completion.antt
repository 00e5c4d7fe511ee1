-- ===== src/Completion.antt =====
-- `complete` and `approve` of orch/core.py.
mod Defs
pub mod Refines
pub mod Approved
unfoldable pub use Defs.*
