-- ===== src/Lifecycle/Refinement.antt =====
-- The abstract state of a ledger, and what the shared writes do to it.
mod Defs
mod Writes
pub use Defs.*
pub use Writes.*
