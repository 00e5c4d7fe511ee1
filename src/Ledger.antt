-- ===== src/Ledger.antt =====
-- The SQLite ledger of orch/core.py: its rows, the joins that the operations read, and their
-- writes.
mod State
mod Rows
mod Access
mod Locks
unfoldable pub use State.*
pub use Rows.*
unfoldable pub use Access.*
unfoldable pub use Locks.*
