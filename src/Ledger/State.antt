-- ===== src/Ledger/State.antt =====
-- The states of runs and tasks, and the sets of states at the top of orch/core.py.
use orch_kit.Prelude.{Bool, true, false}

pub data RunState : Type 0 where
  running result_submitted quiescing verifying reviewing verified : RunState
  needs_fix blocked complete aborted : RunState

pub data TaskStatus : Type 0 where
  planned ready needs_fix in_progress waiting_review waiting_owner : TaskStatus
  ready_to_publish blocked done cancelled : TaskStatus

-- ACTIVE_RUN_STATES
abbrev pub is_active : RunState → Bool
is_active RunState.running = true
is_active RunState.result_submitted = true
is_active RunState.quiescing = true
is_active RunState.verifying = true
is_active RunState.reviewing = true
is_active _ = false

-- WRITER_LOCK_RUN_STATES
abbrev pub locks_writer : RunState → Bool
locks_writer RunState.verified = true
locks_writer s = is_active s

-- READY_TASK_STATES
abbrev pub is_ready : TaskStatus → Bool
is_ready TaskStatus.planned = true
is_ready TaskStatus.ready = true
is_ready TaskStatus.needs_fix = true
is_ready _ = false

abbrev pub is_running : RunState → Bool
is_running RunState.running = true
is_running _ = false

abbrev pub is_result_submitted : RunState → Bool
is_result_submitted RunState.result_submitted = true
is_result_submitted _ = false

abbrev pub is_verifying : RunState → Bool
is_verifying RunState.verifying = true
is_verifying _ = false

abbrev pub is_reviewing : RunState → Bool
is_reviewing RunState.reviewing = true
is_reviewing _ = false

abbrev pub is_verified : RunState → Bool
is_verified RunState.verified = true
is_verified _ = false

abbrev pub is_needs_fix : RunState → Bool
is_needs_fix RunState.needs_fix = true
is_needs_fix _ = false

abbrev pub is_done : TaskStatus → Bool
is_done TaskStatus.done = true
is_done _ = false

abbrev pub is_cancelled : TaskStatus → Bool
is_cancelled TaskStatus.cancelled = true
is_cancelled _ = false

abbrev pub is_blocked : TaskStatus → Bool
is_blocked TaskStatus.blocked = true
is_blocked _ = false
