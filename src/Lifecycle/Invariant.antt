-- ===== src/Lifecycle/Invariant.antt =====
-- The invariant of the moves: a writer key has one holder, a task's status fits its active run,
-- attempts are numbered without a gap or a repeat, and work starts after what it depends on.
mod Defs
mod Rows
mod Written
mod Move
mod Retire
mod Start
mod Keep
pub use Defs.*
pub use Keep.{Step-Inv, Steps-Inv}
pub use Retire.{retire-Holds}
