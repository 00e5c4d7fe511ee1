-- ===== src/Completion/Approved.antt =====
-- What a completed run has shown.
use orch_kit.Prelude.{ℕ, String, ◌≡◌, true, not, ◌||◌, some, arith}
use orch_kit.Result.{Result, ok}
use orch_kit.Ledger.{
  RunState, Run, Task, Manifest, PublicationKind, Ledger, find_run, find_task, find_manifest,
  is_approved,
}
use orch_kit.Completion.Defs.{Completed, complete, assert_snapshot_current}

-- The run was verified, its snapshot is current, its approval is there if it is needed, and its
-- task publishes nothing.
pub record IsCompletable (l : Ledger) (run_id : String) (current : Result (Unit {0})) (r : Run)
    (t : Task) (manifest : Manifest) : Type 0 where
  pub found : find_run l run_id ≡ some r
  pub state : r.state ≡ RunState.verified
  pub joined : find_task l r.task_id ≡ some t
  pub snapshot : find_manifest l r.snapshot_id ≡ some manifest
  pub fresh : current ≡ ok tt
  pub approved : (not t.payload.owner_acceptance || is_approved l r) ≡ true
  pub local : t.payload.publication.kind ≡ PublicationKind.no_publication

-- A run is completed only if it was verified, its snapshot is there and current, the owner approved this
-- snapshot where the task asks for that, and the task has nothing to publish.
pub complete-approved :
    (l m : Ledger) (run_id : String) (current : Result (Unit {0})) (now : ℕ)
    → complete l run_id current now ≡ ok (m, Completed.finished)
    → (r : Run) × (t : Task) × (manifest : Manifest) × IsCompletable l run_id current r t manifest
unfolding complete assert_snapshot_current
complete-approved l m run_id current now h = ground arith
