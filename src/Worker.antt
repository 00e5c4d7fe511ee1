-- ===== src/Worker.antt =====
-- The contracts of orch/worker_operations.py. A value of the model has the type that the source tests
-- with `isinstance`.
mod Defs
pub mod Target
pub mod Reply
unfoldable pub use Defs.*
