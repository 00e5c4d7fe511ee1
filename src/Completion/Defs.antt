-- ===== src/Completion/Defs.antt =====
-- `current` is what `_assert_manifest_current` returned or raised for the workspace.
use orch_kit.Prelude.{
  ℕ, String, Bool, true, false, ◌&&◌, not, Option, none, some, put, truncate, if◌then◌else◌,
}
use orch_kit.Result.{
  Result, ok, ◌>>=◌, ◌>>◌, guard, require, run_not_verified, run_not_approvable, snapshot_missing,
  owner_approval_not_required, unknown_task,
}
use orch_kit.Ledger.{
  RunState, TaskStatus, Run, Manifest, PublicationKind, Approval, EventKind, Ledger, find_run,
  find_task, find_manifest, set_run, set_status, add_event, is_verified, is_approved,
}

-- `_assert_snapshot_current`
unfoldable pub assert_snapshot_current : Ledger → Run → Result (Unit {0}) → Result Manifest
assert_snapshot_current l run current = do
  manifest ← require (find_manifest l run.snapshot_id) snapshot_missing
  current
  ok manifest

pub data Completed : Type 0 where
  finished waiting_owner publication_required : Completed

abbrev pub publishes : PublicationKind → Bool
publishes PublicationKind.no_publication = false
publishes _ = true

abbrev pub completed_at : ℕ → Run → Run
completed_at now r = record r { state = RunState.complete; completed_at = some now }

unfoldable pub complete : Ledger → String → Result (Unit {0}) → ℕ → Result (Ledger × Completed)
complete l run_id current now = do
  run ← require (find_run l run_id) run_not_verified
  guard (is_verified run.state) run_not_verified
  task ← require (find_task l run.task_id) unknown_task
  manifest ← assert_snapshot_current l run current
  if task.payload.owner_acceptance && not (is_approved l run)
      then ok (set_status run.task_id TaskStatus.waiting_owner now l, Completed.waiting_owner)
      else if publishes task.payload.publication.kind
      then ok (l, Completed.publication_required)
      else ok (
        add_event now EventKind.run_complete (some run.task_id) (some run_id)
            (set_status run.task_id TaskStatus.done now (set_run run_id (completed_at now) l)),
        Completed.finished,
      )

abbrev pub is_present : Option String → Bool
is_present none = false
is_present (some s) = true

unfoldable pub approve : Ledger → String → String → Result (Unit {0}) → ℕ → Result Ledger
approve l run_id note current now = do
  run ← require (find_run l run_id) run_not_approvable
  guard (is_verified run.state && is_present run.snapshot_id) run_not_approvable
  task ← require (find_task l run.task_id) unknown_task
  guard task.payload.owner_acceptance owner_approval_not_required
  manifest ← assert_snapshot_current l run current
  let approval : Approval = record {
    run_id = run_id;
    snapshot_id = run.snapshot_id;
    approved_at = now;
    note = truncate 500 note;
  }
  ok (
      add_event now EventKind.owner_approved (some run.task_id) (some run_id) (
        set_status run.task_id TaskStatus.ready_to_publish now
          (record l { approvals = put (λ (a : Approval). a.run_id) approval l.approvals })))
