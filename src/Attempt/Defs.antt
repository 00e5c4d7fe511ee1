-- ===== src/Attempt/Defs.antt =====
-- The operations. The receipt is what `_load_worker_receipt` returned or raised. `execution` is the
-- outcome of `require_execution_resolved`, and `processes` that of `require_processes_resolved`,
-- which may write an acknowledgement of the run's processes.
use orch_kit.Prelude.{
  ℕ, String, Bool, true, false, not, ◌&&◌, some, List, [], ◌∷◌, ◌==◌, codes, is_blank, strip,
  truncate, put,
}
use mathlib.Core.List.{map}
use orch_kit.Path.{path_allowed}
use orch_kit.Result.{
  Result, ok, ◌>>=◌, ◌>>◌, guard, require, invalid_lease, run_not_running,
  checkpoint_reason_required, receipt_identity_mismatch, receipt_changed_paths_required,
  path_not_allowed, result_not_submitted, unknown_task,
}
use orch_kit.Ledger.{
  RunState, Run, Receipt, Checkpoint, Ledger, EventKind, find_run, find_task, set_run, add_event,
  revoke_capability, is_running, is_result_submitted,
}

-- The run, if its lease is the caller's: `invalid_lease` for both refusals.
unfoldable pub leased_run : Ledger → String → String → Result Run
leased_run l run_id lease_token = do
  run ← require (find_run l run_id) invalid_lease
  guard (run.lease_token == lease_token) invalid_lease
  ok run

abbrev pub beat_at : ℕ → Run → Run
beat_at now r = record r { heartbeat_at = now }

unfoldable pub heartbeat : Ledger → String → String → ℕ → Result (Ledger × ℕ)
heartbeat l run_id lease_token now = do
  run ← leased_run l run_id lease_token
  guard (is_running run.state) run_not_running
  ok (set_run run_id (beat_at now) l, now)

unfoldable pub checkpoint :
    Ledger → String → String → String → Bool → ℕ → Result (Ledger × Checkpoint)
checkpoint l run_id lease_token reason process_active now = do
  guard (not (is_blank reason)) checkpoint_reason_required
  run ← leased_run l run_id lease_token
  guard (is_running run.state) run_not_running
  let details : Checkpoint = record {
    run_id = run_id;
    task_id = run.task_id;
    reason = truncate 500 (strip reason);
    process_active = process_active;
    recorded_at = now;
  }
  let saved : Ledger = record l {
    checkpoints = put (λ (c : Checkpoint). c.run_id) details l.checkpoints;
  }
  ok (
    add_event now (EventKind.worker_checkpoint_recorded details.reason) (some run.task_id)
        (some run_id) (set_run run_id (beat_at now) saved),
    details,
  )

-- The first path that no entry of the allowlist covers.
unfoldable pub require_paths_allowed : List String → List String → Result (Unit {0})
require_paths_allowed [] allowlist = ok tt
require_paths_allowed (relative ∷ rest) allowlist = do
  guard (path_allowed (codes relative) (map codes allowlist)) (path_not_allowed relative)
  require_paths_allowed rest allowlist

abbrev pub is_nonempty : List String → Bool
is_nonempty [] = false
is_nonempty (p ∷ ps) = true

abbrev pub acknowledge : Bool → ℕ → Run → Ledger → Ledger
acknowledge true now r l =
    add_event now EventKind.process_closure_acknowledged (some r.task_id) (some r.run_id) l
acknowledge false now r l = l

abbrev pub submitted : Receipt → ℕ → Run → Run
submitted receipt now r = record r {
  state = RunState.result_submitted;
  receipt = some receipt;
  submitted_at = some now;
  heartbeat_at = now;
}

unfoldable pub submit :
    Ledger
    → String
    → String
    → Result Receipt
    → Result (Unit {0})
    → Result Bool
    → ℕ
    → Result (Ledger × Receipt)
submit l run_id lease_token loaded execution processes now = do
  receipt ← loaded
  run ← leased_run l run_id lease_token
  guard (is_running run.state) run_not_running
  task ← require (find_task l run.task_id) unknown_task
  guard (receipt.run_id == run_id && receipt.task_id == run.task_id) receipt_identity_mismatch
  guard (is_nonempty receipt.changed_paths) receipt_changed_paths_required
  require_paths_allowed receipt.changed_paths task.payload.allowed_paths
  execution
  closed ← processes
  ok (
    add_event now (EventKind.result_submitted receipt.changed_paths) (some run.task_id)
        (some run_id) (set_run run_id (submitted receipt now) (acknowledge closed now run l)),
    receipt,
  )

abbrev pub quiesced : ℕ → Run → Run
quiesced now r = record r { state = RunState.verifying; heartbeat_at = now }

unfoldable pub quiesce :
    Ledger → String → String → Result (Unit {0}) → Result Bool → ℕ → Result (Ledger × Run)
quiesce l run_id lease_token execution processes now = do
  run ← leased_run l run_id lease_token
  guard (is_result_submitted run.state) result_not_submitted
  execution
  closed ← processes
  ok (
    revoke_capability run_id (
        add_event now EventKind.cooperative_quiescence_confirmed (some run.task_id) (some run_id)
          (set_run run_id (quiesced now) (acknowledge closed now run l))),
    run,
  )
