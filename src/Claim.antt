-- ===== src/Claim.antt =====
-- `claim` and `next_work` of orch/core.py: the scan of the queue, the guards of the workspace, the
-- admission of a repair, and the start of a run.
mod Queue
mod Check
mod Guards
mod Repair
mod Start
pub mod Scanning
mod Ordering
pub mod Repaired
pub mod Eligible
pub mod Fifo
pub mod Paused
pub mod Progress
pub mod Agrees
pub mod Refines
unfoldable pub use Queue.*
unfoldable pub use Guards.*
unfoldable pub use Start.*
pub use Scanning.{Advance, Advance-refl, Advance-trans, Advance-Refine}
pub use Repaired.{claim-Advance}
pub use Check.*
