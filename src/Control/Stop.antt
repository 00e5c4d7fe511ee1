-- ===== src/Control/Stop.antt =====
-- `cancel_task` and `abort`.
use orch_kit.Prelude.{
  ℕ, String, Bool, true, false, not, ◌&&◌, ◌||◌, Option, none, some, List, [], ◌∷◌, ◌==◌, find,
  is_blank, truncate, ltb, if◌then◌else◌,
}
use orch_kit.Result.{
  Result, ok, err, ◌>>=◌, ◌>>◌, guard, require, cancel_reason_required, unknown_task, task_active,
  task_not_cancellable, run_not_active, process_inactivity_confirmation_required,
}
use orch_kit.Ledger.{
  RunState, TaskStatus, Run, Task, Checkpoint, EventKind, Ledger, find_run, find_task, set_run,
  set_status, add_event, revoke_capability, is_active, is_ready, is_blocked, is_running,
}
use orch_kit.Attempt.{acknowledge}
use orch_kit.Control.Pauses.{is_some}

-- The task's active run that started last: ORDER BY started_at DESC LIMIT 1
unfoldable pub active_run_of : String → List Run → Option Run
active_run_of task_id [] = none
active_run_of task_id (r ∷ rs) =
    let later = active_run_of task_id rs in
    if (r.task_id == task_id) && is_active r.state
    then elim later [
      | none ↦ some r
      | some s ↦ if ltb r.started_at s.started_at then some s else some r
    ]
    else later

pub data Cancelled : Type 0 where
  already_cancelled : Cancelled
  cancelled_from : TaskStatus → Cancelled

-- The part of `cancel_task` behind the lookup of the task.
unfoldable pub cancel_found : Ledger → Task → ℕ → Result (Ledger × Cancelled)
cancel_found l task now = elim task.status [
  | TaskStatus.cancelled ↦ ok (l, Cancelled.already_cancelled)
  | _ ↦ elim (active_run_of task.task_id l.runs) [
    | some r ↦ err (task_active r.run_id)
    | none ↦
        if is_ready task.status || is_blocked task.status
        then ok (
          add_event now (EventKind.task_cancelled task.status) (some task.task_id) none
              (set_status task.task_id TaskStatus.cancelled now l),
          Cancelled.cancelled_from task.status,
        )
        else err task_not_cancellable
  ]
]

unfoldable pub cancel_task : Ledger → String → String → ℕ → Result (Ledger × Cancelled)
cancel_task l task_id reason now = do
  guard (not (is_blank reason)) cancel_reason_required
  task ← require (find_task l task_id) unknown_task
  cancel_found l task now

abbrev pub aborted : String → ℕ → Run → Run
aborted reason now r = record r {
  state = RunState.aborted;
  error = some (truncate 1000 reason);
  completed_at = some now;
}

abbrev pub aborted_status : Bool → TaskStatus
aborted_status true = TaskStatus.needs_fix
aborted_status false = TaskStatus.blocked

abbrev pub is_checkpointed : Ledger → String → Bool
is_checkpointed l run_id = is_some (find (λ (c : Checkpoint). c.run_id) run_id l.checkpoints)

-- `execution` and `processes` are the outcomes of `require_execution_resolved` and
-- `require_processes_resolved`.
unfoldable pub abort :
    Ledger
    → String
    → String
    → Bool
    → Bool
    → Result (Unit {0})
    → Result Bool
    → ℕ
    → Result (Ledger × TaskStatus)
abort l run_id reason retry confirmed execution processes now = do
  run ← require (find_run l run_id) run_not_active
  guard (is_active run.state) run_not_active
  guard (not (is_running run.state && is_checkpointed l run_id && not confirmed))
      process_inactivity_confirmation_required
  execution
  closed ← processes
  ok (
    revoke_capability run_id (
        add_event now (EventKind.run_aborted retry) (some run.task_id) (some run_id) (
          set_status run.task_id (aborted_status retry) now
            (set_run run_id (aborted reason now) (acknowledge closed now run l)))),
    aborted_status retry,
  )
