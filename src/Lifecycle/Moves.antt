-- ===== src/Lifecycle/Moves.antt =====
-- The abstract state of the ledger and its moves.
use mathlib.Core.WellFounded.{Acc}
use orch_kit.Prelude.{
  ℕ, String, ◌+◌, ◌<◌, ◌≡◌, Bool, true, Option, none, some, List, ◌==◌, is_in, All, if◌then◌else◌,
}
use orch_kit.Ledger.{RunState, TaskStatus, locks_writer, is_ready}

pub record RunView : Type 0 where
  pub task_id : String
  pub attempt : ℕ
  pub state : RunState

pub record TaskView : Type 0 where
  pub writer_key : String
  pub status : TaskStatus
  pub max_attempts : ℕ
  pub dependencies : List String

pub record View : Type 0 where
  pub run : String → Option RunView
  pub task : String → Option TaskView
  pub attempts : String → ℕ

-- The moves of a run from one state to another, and the status that its task gets, if it changes.
pub data Edge : RunState → RunState → Option TaskStatus → Type 0 where
  beat : Edge RunState.running RunState.running none
  submit : Edge RunState.running RunState.result_submitted none
  quiesce : Edge RunState.result_submitted RunState.verifying none
  verify_block : Edge RunState.verifying RunState.blocked (some TaskStatus.blocked)
  verify_fail : Edge RunState.verifying RunState.needs_fix (some TaskStatus.needs_fix)
  verify_pass : Edge RunState.verifying RunState.verified (some TaskStatus.ready_to_publish)
  verify_review : Edge RunState.verifying RunState.reviewing (some TaskStatus.waiting_review)
  review_pass : Edge RunState.reviewing RunState.verified (some TaskStatus.ready_to_publish)
  review_fix : Edge RunState.reviewing RunState.needs_fix (some TaskStatus.needs_fix)
  review_block : Edge RunState.reviewing RunState.needs_fix (some TaskStatus.blocked)
  await_owner : Edge RunState.verified RunState.verified (some TaskStatus.waiting_owner)
  approve : Edge RunState.verified RunState.verified (some TaskStatus.ready_to_publish)
  complete : Edge RunState.verified RunState.complete (some TaskStatus.done)
  retry_running : Edge RunState.running RunState.aborted (some TaskStatus.needs_fix)
  retry_submitted : Edge RunState.result_submitted RunState.aborted (some TaskStatus.needs_fix)
  retry_quiescing : Edge RunState.quiescing RunState.aborted (some TaskStatus.needs_fix)
  retry_verifying : Edge RunState.verifying RunState.aborted (some TaskStatus.needs_fix)
  retry_reviewing : Edge RunState.reviewing RunState.aborted (some TaskStatus.needs_fix)
  stop_running : Edge RunState.running RunState.aborted (some TaskStatus.blocked)
  stop_submitted : Edge RunState.result_submitted RunState.aborted (some TaskStatus.blocked)
  stop_quiescing : Edge RunState.quiescing RunState.aborted (some TaskStatus.blocked)
  stop_verifying : Edge RunState.verifying RunState.aborted (some TaskStatus.blocked)
  stop_reviewing : Edge RunState.reviewing RunState.aborted (some TaskStatus.blocked)

-- A task without an active run leaves the queue.
pub data Retire : TaskStatus → TaskStatus → Type 0 where
  block : (s : TaskStatus) → is_ready s ≡ true → Retire s TaskStatus.blocked
  cancel : (s : TaskStatus) → is_ready s ≡ true → Retire s TaskStatus.cancelled
  cancel_blocked : Retire TaskStatus.blocked TaskStatus.cancelled

-- The statuses from which a claim may start a run: a repair may start from `blocked` too.
abbrev pub is_startable : TaskStatus → Bool
is_startable TaskStatus.blocked = true
is_startable s = is_ready s

abbrev pub new_status : Option TaskStatus → TaskStatus → TaskStatus
new_status none s = s
new_status (some s') s = s'

-- The task `j` depends on `d`.
pub record DependsOn (v : View) (d j : String) : Type 0 where
  pub row : TaskView
  pub found : v.task j ≡ some row
  pub listed : is_in d row.dependencies ≡ true

-- Each dependency is a task, and no chain of dependencies goes on without end.
pub record Grounded (v : View) : Type 0 where
  pub known : (d j : String) → DependsOn v d j → (t : TaskView) × (v.task d ≡ some t)
  pub ends : (j : String) → Acc (DependsOn v) j

abbrev pub IsDone : View → String → Type 0
IsDone v d = (t : TaskView) × (v.task d ≡ some t) × (t.status ≡ TaskStatus.done)

-- Run `i` holds the writer key `k`.
pub record Holds (v : View) (i k : String) : Type 0 where
  pub row : RunView
  pub owner : TaskView
  pub found : v.run i ≡ some row
  pub joined : v.task row.task_id ≡ some owner
  pub locked : locks_writer row.state ≡ true
  pub keyed : owner.writer_key ≡ k

pub data Step (v w : View) : Type 0 where
  stay :
      ((i : String) → w.run i ≡ v.run i)
      → ((j : String) → w.task j ≡ v.task j)
      → ((j : String) → w.attempts j ≡ v.attempts j)
      → Step v w
  move :
      (id : String) (r : RunView) (t : TaskView) (to : RunState) (status : Option TaskStatus)
      → v.run id ≡ some r
      → v.task r.task_id ≡ some t
      → Edge r.state to status
      → ((i : String) → w.run i ≡ (if id == i then some (record r { state = to }) else v.run i))
      → ((j : String)
          → w.task j ≡ (
              if r.task_id == j
              then some (record t { status = new_status status t.status })
              else v.task j))
      → ((j : String) → w.attempts j ≡ v.attempts j)
      → Step v w
  retire :
      (id : String) (t : TaskView) (status : TaskStatus)
      → v.task id ≡ some t
      → Retire t.status status
      → ((i : String) → w.run i ≡ v.run i)
      → ((j : String)
          → w.task j ≡ (if id == j then some (record t { status = status }) else v.task j))
      → ((j : String) → w.attempts j ≡ v.attempts j)
      → Step v w
  start :
      (id task_id : String) (t : TaskView)
      → v.run id ≡ none
      → v.task task_id ≡ some t
      → is_startable t.status ≡ true
      → All (IsDone v) t.dependencies
      → v.attempts task_id < t.max_attempts
      → ((i : String) → ¬ Holds v i t.writer_key)
      → ((i : String)
          → w.run i ≡ (
              if id == i
              then some (record {
                task_id = task_id;
                attempt = v.attempts task_id + 1;
                state = RunState.running;
              })
              else v.run i))
      → ((j : String)
          → w.task j ≡ (
              if task_id == j
              then some (record t { status = TaskStatus.in_progress })
              else v.task j))
      → ((j : String) → w.attempts j ≡ (if task_id == j then v.attempts j + 1 else v.attempts j))
      → Step v w
  load :
      ((i : String) → w.run i ≡ v.run i)
      → ((j : String) (t : TaskView) → v.task j ≡ some t → w.task j ≡ some t)
      → ((j : String) (t : TaskView)
          → v.task j ≡ none
          → w.task j ≡ some t
          → t.status ≡ TaskStatus.planned)
      → ((j : String) → w.attempts j ≡ v.attempts j)
      → (Grounded v → Grounded w)
      → Step v w

pub data Steps (v : View) : View → Type 0 where
  here : Steps v v
  next : {u w : View} → Steps v u → Step u w → Steps v w
