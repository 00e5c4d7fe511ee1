-- ===== src/Control/Refines.antt =====
-- Cancelling is a retirement of a task, and aborting a move of an active run.
use mathlib.Core.Path.{subst, sym}
use orch_kit.Prelude.{ℕ, String, ◌≡◌, refl, Bool, true, false, some, arith, update, find-key}
use orch_kit.Result.{Result, ok, >>=-eq-ok, >>-eq-ok, require, require-eq-ok, unknown_task}
use orch_kit.Ledger.{
  RunState, TaskStatus, Run, Task, Ledger, task_key, find_task, with_status, is_active,
}
use orch_kit.Lifecycle.{Edge, Retire}
use orch_kit.Lifecycle.Invariant.{Inv}
use orch_kit.Lifecycle.Refinement.{view, Refine, Step-update, Step-stay, Step-Retire, Updates}
use orch_kit.Control.Stop.{Cancelled, cancel_found, cancel_task, aborted, aborted_status, abort}

-- A task's status before it was cancelled.
data Cancel (l m : Ledger) (t : Task) (now : ℕ) : Type 0 where
  same : m ≡ l → Cancel l m t now
  out :
      Retire t.status TaskStatus.cancelled
      → m.runs ≡ l.runs
      → m.tasks ≡ update task_key t.task_id (with_status TaskStatus.cancelled now) l.tasks
      → Cancel l m t now

cancel_found-Cancel :
    (l m : Ledger) (t : Task) (now : ℕ) (c : Cancelled) (status : TaskStatus)
    → t.status ≡ status
    → cancel_found l t now ≡ ok (m, c)
    → Cancel l m t now
unfolding cancel_found
cancel_found-Cancel l m t now c TaskStatus.cancelled e h = Cancel.same (ground arith)
cancel_found-Cancel l m t now c TaskStatus.blocked e h =
    Cancel.out (rw e Retire.cancel_blocked) (ground arith) (ground arith)
cancel_found-Cancel l m t now c status e h =
    Cancel.out (Retire.cancel t.status (ground arith)) (ground arith) (ground arith)

cancel_task-Cancel :
    (l m : Ledger) (task_id reason : String) (now : ℕ) (c : Cancelled)
    → cancel_task l task_id reason now ≡ ok (m, c)
    → (t : Task) × (find_task l task_id ≡ some t) × (cancel_found l t now ≡ ok (m, c))
unfolding cancel_task
cancel_task-Cancel l m task_id reason now c h =
    let (g, k) = >>-eq-ok _ _ h in
    let (t, e, f) = >>=-eq-ok (require (find_task l task_id) unknown_task) _ k in
    (t, require-eq-ok _ _ e, f)

pub cancel_task-Step :
    (l m : Ledger) (task_id reason : String) (now : ℕ) (c : Cancelled)
    → cancel_task l task_id reason now ≡ ok (m, c)
    → Refine l m
cancel_task-Step l m task_id reason now c h =
    let (t, found, f) = cancel_task-Cancel l m task_id reason now c h in
    let key : t.task_id ≡ task_id = find-key task_key task_id l.tasks found in
    step t (subst (λ k. find_task l k ≡ some t) (sym key) found)
      (cancel_found-Cancel l m t now c t.status refl f)
  where
    step : (t : Task) → find_task l t.task_id ≡ some t → Cancel l m t now → Refine l m
    step t found (Cancel.same e) = Step-stay l m (rw e) (rw e)
    step t found (Cancel.out retire runs tasks) =
        Step-Retire l m t.task_id t TaskStatus.cancelled now found retire runs tasks

record Aborts (l m : Ledger) (run_id reason : String) (retry : Bool) (now : ℕ) (r : Run)
    : Type 0 where
  pub active : is_active r.state ≡ true
  pub updates : Updates l m run_id (aborted reason now) (some (aborted_status retry)) now r.state r

abort-Aborts :
    (l m : Ledger) (run_id reason : String) (retry confirmed : Bool) (execution : Result (Unit {0}))
    (processes : Result Bool) (now : ℕ) (s : TaskStatus)
    → abort l run_id reason retry confirmed execution processes now ≡ ok (m, s)
    → (r : Run) × Aborts l m run_id reason retry now r
unfolding abort
abort-Aborts l m run_id reason retry confirmed execution processes now s h = ground arith

aborted-Edge :
    (s : RunState) (retry : Bool)
    → is_active s ≡ true
    → Edge s RunState.aborted (some (aborted_status retry))
aborted-Edge RunState.running true h = Edge.retry_running
aborted-Edge RunState.running false h = Edge.stop_running
aborted-Edge RunState.result_submitted true h = Edge.retry_submitted
aborted-Edge RunState.result_submitted false h = Edge.stop_submitted
aborted-Edge RunState.quiescing true h = Edge.retry_quiescing
aborted-Edge RunState.quiescing false h = Edge.stop_quiescing
aborted-Edge RunState.verifying true h = Edge.retry_verifying
aborted-Edge RunState.verifying false h = Edge.stop_verifying
aborted-Edge RunState.reviewing true h = Edge.retry_reviewing
aborted-Edge RunState.reviewing false h = Edge.stop_reviewing
aborted-Edge _ retry h = cc

pub abort-Step :
    (l m : Ledger) (run_id reason : String) (retry confirmed : Bool) (execution : Result (Unit {0}))
    (processes : Result Bool) (now : ℕ) (s : TaskStatus)
    → Inv (view l)
    → abort l run_id reason retry confirmed execution processes now ≡ ok (m, s)
    → Refine l m
abort-Step l m run_id reason retry confirmed execution processes now s inv h =
    let (r, a) = abort-Aborts l m run_id reason retry confirmed execution processes now s h in
    Step-update inv a.updates (record { key = λ x. refl; task = λ x. refl; number = λ x. refl })
      (aborted-Edge r.state retry a.active)
