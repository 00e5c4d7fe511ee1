-- ===== src/Lifecycle.antt =====
-- What the ledger promises, apart from its rows: which run is in which state, which task has which
-- status, and the moves between them. The operations of orch/core.py are shown to make these moves
-- only; the invariants are proved of the moves.
mod Moves
pub mod Invariant
pub mod Terminal
pub mod Grounds
pub mod Refinement
pub use Moves.*
