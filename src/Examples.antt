-- ===== src/Examples.antt =====
-- Tests, and a concrete input for each theorem that has hypotheses.
mod Data
mod Claims
mod Guards
mod Queue
mod Plans
mod Wire
mod Sessions
mod Resume
mod Files
