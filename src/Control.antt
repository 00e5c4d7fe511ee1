-- ===== src/Control.antt =====
-- The operator's controls of orch/core.py: `pause`, `resume`, `pause_project`, `resume_project`,
-- `record_project_removed`, `project_removal_guard`, `cancel_task`, `abort`.
mod Pauses
mod Stop
pub mod Refines
unfoldable pub use Pauses.*
unfoldable pub use Stop.*
