-- ===== src/Planning.antt =====
-- `load_plan` of orch/core.py, behind the parsing of the document.
mod Item
pub mod Graph
mod Defs
mod Items
pub mod Grounds
pub mod Refines
pub mod Order
pub use Item.*
unfoldable pub use Defs.*
