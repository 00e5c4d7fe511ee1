-- ===== src/Verification.antt =====
-- `verify`, `_block_verification` and `_workspace_scope_evidence` of orch/core.py.
mod Defs
mod Scope
pub mod Inside
pub mod Refines
pub mod Race
pub mod Passed
unfoldable pub use Defs.*
unfoldable pub use Scope.*
