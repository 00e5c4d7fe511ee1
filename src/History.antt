-- ===== src/History.antt =====
-- The operations of the orchestrator as commands, in any order.
mod Defs
pub mod Keep
pub mod Removal
pub mod Safety
pub mod Live
unfoldable pub use Defs.*
