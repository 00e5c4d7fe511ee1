-- ===== src/Completion/Refines.antt =====
-- Completion and approval are moves of a verified run.
use orch_kit.Prelude.{ℕ, String, ◌≡◌, refl, some, arith}
use orch_kit.Result.{Result, ok}
use orch_kit.Ledger.{RunState, TaskStatus, Run, Ledger}
use orch_kit.Lifecycle.{Edge}
use orch_kit.Lifecycle.Invariant.{Inv}
use orch_kit.Lifecycle.Refinement.{
  view, Refine, Step-update, Step-stay, Step-restate, Restates, Updates,
}
use orch_kit.Completion.Defs.{Completed, completed_at, complete, approve, assert_snapshot_current}

complete-Updates :
    (l m : Ledger) (run_id : String) (current : Result (Unit {0})) (now : ℕ)
    → complete l run_id current now ≡ ok (m, Completed.finished)
    → (r : Run) × Updates l m run_id
        (completed_at now)
        (some TaskStatus.done)
        now
        RunState.verified
        r
unfolding complete assert_snapshot_current
complete-Updates l m run_id current now h = ground arith

complete-Restates :
    (l m : Ledger) (run_id : String) (current : Result (Unit {0})) (now : ℕ)
    → complete l run_id current now ≡ ok (m, Completed.waiting_owner)
    → (r : Run) × Restates l m run_id TaskStatus.waiting_owner now RunState.verified r
unfolding complete assert_snapshot_current
complete-Restates l m run_id current now h = ground arith

complete_publication :
    (l m : Ledger) (run_id : String) (current : Result (Unit {0})) (now : ℕ)
    → complete l run_id current now ≡ ok (m, Completed.publication_required)
    → m ≡ l
unfolding complete assert_snapshot_current
complete_publication l m run_id current now h = ground arith

approve-Restates :
    (l m : Ledger) (run_id note : String) (current : Result (Unit {0})) (now : ℕ)
    → approve l run_id note current now ≡ ok m
    → (r : Run) × Restates l m run_id TaskStatus.ready_to_publish now RunState.verified r
unfolding approve assert_snapshot_current
approve-Restates l m run_id note current now h = ground arith

pub complete-Step :
    (l m : Ledger) (run_id : String) (current : Result (Unit {0})) (now : ℕ) (c : Completed)
    → Inv (view l)
    → complete l run_id current now ≡ ok (m, c)
    → Refine l m
complete-Step l m run_id current now Completed.finished inv h =
    let (r, u) = complete-Updates l m run_id current now h in
    Step-update inv u (record { key = λ x. refl; task = λ x. refl; number = λ x. refl })
      Edge.complete
complete-Step l m run_id current now Completed.waiting_owner inv h =
    let (r, w) = complete-Restates l m run_id current now h in Step-restate inv w Edge.await_owner
complete-Step l m run_id current now Completed.publication_required inv h =
    let same = complete_publication l m run_id current now h in Step-stay l m (rw same) (rw same)

pub approve-Step :
    (l m : Ledger) (run_id note : String) (current : Result (Unit {0})) (now : ℕ)
    → Inv (view l)
    → approve l run_id note current now ≡ ok m
    → Refine l m
approve-Step l m run_id note current now inv h =
    let (r, w) = approve-Restates l m run_id note current now h in Step-restate inv w Edge.approve
