-- ===== src/Review.antt =====
-- orch/review_policy.py `decide_review`, and `import_review` of orch/core.py.
mod Policy
mod Import
pub mod Decision
pub mod Sorted
pub mod Refines
unfoldable pub use Policy.*
unfoldable pub use Import.*
