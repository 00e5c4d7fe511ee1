-- ===== src/Attempt.antt =====
-- The worker's side of a run in orch/core.py: `heartbeat`, `checkpoint`, `submit`, `quiesce`.
mod Defs
pub mod Refines
pub mod Allowed
unfoldable pub use Defs.*
