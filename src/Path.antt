-- ===== src/Path.antt =====
-- `normalize_relative_path` and `path_allowed` of orch/core.py, over code points. `Path` is
-- pathlib's PurePosixPath: the text is split at each slash, empty parts and `.` are dropped, and
-- one leading slash, or three and more, make the root `/`, two make the root `//`.
mod Defs
pub mod Absolute
pub mod Allowlist
unfoldable pub use Defs.*
