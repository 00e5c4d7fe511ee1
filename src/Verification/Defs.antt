-- ===== src/Verification/Defs.antt =====
-- `verify` reads its run in one transaction, observes the workspace with no transaction open, and
-- writes in a second one. What it observes is a value here: what git lists, the check authority
-- before and after the checks, the snapshot, the results of the checks, and whether the snapshot is
-- still current behind them.
use orch_kit.Prelude.{
  ℕ, String, Bool, true, false, ◌&&◌, Option, none, some, List, [], ◌∷◌, ◌==◌, nat_eq, not,
  truncate, put, or_else, if◌then◌else◌,
}
use Prim.Native.String.{◌++◌ as append_text}
use orch_kit.Result.{
  Result, Error, ok, err, ◌>>=◌, ◌>>◌, guard, require, run_not_verifying, unknown_task, observed,
}
use orch_kit.Ledger.{
  RunState, TaskStatus, Run, Task, Payload, PublicationKind, Manifest, Snapshot, Feedback,
  VerifyStatus, EventKind, Ledger, find_run, find_task, set_run, set_status, add_event,
  revoke_capability, is_verifying,
}
use orch_kit.Review.{decide_review}
use orch_kit.Verification.Scope.{
  Worktree, Scope, workspace_scope_evidence, is_scope_blocked, scope_head,
}

-- An exit code is read only for being zero.
pub record CheckResult : Type 0 where
  pub id : String
  pub exit_code : ℕ
  pub timed_out : Bool

-- `_snapshot` returned, or raised a safety error, or another one.
pub data Taken : Type 0 where
  taken : Manifest → Taken
  unsafe failed : String → Taken

pub record Observation : Type 0 where
  pub worktree : Result (Option Worktree)
  pub authority : Option String
  pub snapshot : Taken
  pub checks : List CheckResult
  pub authority_after : Option String
  pub stale : Option String
  pub snapshot_id : String

abbrev pub is_git : PublicationKind → Bool
is_git PublicationKind.no_publication = false
is_git _ = true

abbrev pub scope_reason : Scope → String
scope_reason Scope.non_git_unavailable = "receipt_scope_mismatch"
scope_reason (Scope.census c) = elim c.outside_allowlist [
  | path ∷ rest ↦ append_text "workspace_scope_violation:" path
  | [] ↦ "receipt_scope_mismatch"
]

-- The base that a publication needs, against the head that was observed.
unfoldable pub base_reason : Payload → Run → Option String → Option String
base_reason payload run none =
    if is_git payload.publication.kind then some "workspace_git_unavailable" else none
base_reason payload run (some head) =
    elim (or_else run.claim_git_head payload.publication.expected_base) [
      | none ↦ none
      | some base ↦
          if is_git payload.publication.kind && not (base == head)
          then some "workspace_base_changed"
          else none
    ]

pub data Gate : Type 0 where
  stop : String → Gate
  raised : Error → Gate
  admit : Manifest → Gate

-- The tests behind the snapshot, then the snapshot's currency.
unfoldable pub late_gate : Observation → Manifest → Gate
late_gate o manifest = elim o.authority_after [
  | some reason ↦ Gate.stop (append_text "check_mutated_authority:" reason)
  | none ↦ elim o.stale [ some reason ↦ Gate.stop reason | none ↦ Gate.admit manifest ]
]

-- The safety tests of `verify` in their order, behind the census.
unfoldable pub scoped_gate : Payload → Run → Observation → Scope → Gate
unfolding base_reason late_gate
scoped_gate payload run o scope =
    if is_scope_blocked scope
    then Gate.stop (scope_reason scope)
    else elim (base_reason payload run (scope_head scope)) [
      | some reason ↦ Gate.stop reason
      | none ↦ elim o.authority [
        | some reason ↦ Gate.stop reason
        | none ↦ elim o.snapshot [
          | unsafe reason ↦ Gate.stop reason
          | failed reason ↦ Gate.raised (observed reason)
          | taken manifest ↦ late_gate o manifest
        ]
      ]
    ]

-- `json.loads` of a receipt that is missing raises.
unfoldable pub gate : Payload → Run → Observation → Gate
unfolding workspace_scope_evidence scoped_gate
gate payload run o = elim run.receipt [
  | none ↦ Gate.raised (observed "TypeError")
  | some receipt ↦ elim (workspace_scope_evidence payload receipt.changed_paths o.worktree) [
    | err e ↦ Gate.raised e
    | ok scope ↦ scoped_gate payload run o scope
  ]
]

abbrev pub blocked_by : String → ℕ → Run → Run
blocked_by reason now r = record r {
  state = RunState.blocked;
  verify_status = some VerifyStatus.blocked;
  feedback = some (Feedback.verification_safety_block reason);
  completed_at = some now;
  error = some (truncate 1000 reason);
}

pub data Outcome : Type 0 where
  needs_fix reviewing verified : Outcome
  blocked : String → Outcome

unfoldable pub block_verification : Ledger → String → String → ℕ → Result (Ledger × Outcome)
block_verification l run_id reason now = do
  run ← require (find_run l run_id) run_not_verifying
  guard (is_verifying run.state) run_not_verifying
  ok (
    revoke_capability run_id (
        add_event now (EventKind.verify_safety_block reason) (some run.task_id) (some run_id) (
          set_status run.task_id TaskStatus.blocked now
            (set_run run_id (blocked_by reason now) l))),
    Outcome.blocked reason,
  )

unfoldable pub all_passed : List CheckResult → Bool
all_passed [] = true
all_passed (c ∷ cs) = nat_eq c.exit_code 0 && not c.timed_out && all_passed cs

abbrev pub verified_as : Outcome → String → Run → Run
verified_as Outcome.needs_fix id r = record r {
  state = RunState.needs_fix;
  snapshot_id = some id;
  verify_status = some VerifyStatus.fail;
  feedback = some (Feedback.verification_failure id);
}
verified_as Outcome.reviewing id r = record r {
  state = RunState.reviewing;
  snapshot_id = some id;
  verify_status = some VerifyStatus.pass;
}
verified_as _ id r = record r {
  state = RunState.verified;
  snapshot_id = some id;
  verify_status = some VerifyStatus.pass;
}

abbrev pub verified_status : Outcome → TaskStatus
verified_status Outcome.needs_fix = TaskStatus.needs_fix
verified_status Outcome.reviewing = TaskStatus.waiting_review
verified_status _ = TaskStatus.ready_to_publish

abbrev pub verified_event : Outcome → String → EventKind
verified_event Outcome.needs_fix id = EventKind.verify_fail id
verified_event _ id = EventKind.verify_pass id

-- The result of the checks, and of the review decision if they passed.
unfoldable pub judge :
    (String → String → Bool) → Payload → Run → Manifest → List CheckResult → Outcome
unfolding all_passed
judge fnmatch payload run manifest checks =
    if all_passed checks
    then (if (decide_review fnmatch payload.review manifest run.attempt).is_required
        then Outcome.reviewing
        else Outcome.verified)
    else Outcome.needs_fix

-- The last transaction. It reads nothing: `run` is the row that the first transaction read.
unfoldable pub commit_verification : Ledger → Run → Manifest → String → Outcome → ℕ → Ledger
commit_verification l run manifest id outcome now =
    let snapshot : Snapshot = record {
      snapshot_id = id;
      run_id = run.run_id;
      manifest = manifest;
      created_at = now;
    } in
    add_event now (verified_event outcome id) (some run.task_id) (some run.run_id) (
      set_status run.task_id (verified_status outcome) now (
        set_run run.run_id (verified_as outcome id)
          (record l { snapshots = put (λ (s : Snapshot). s.snapshot_id) snapshot l.snapshots })))

-- The first transaction: the run and its task.
unfoldable pub begin_verification : Ledger → String → Result (Run × Task)
begin_verification l run_id = do
  run ← require (find_run l run_id) run_not_verifying
  guard (is_verifying run.state) run_not_verifying
  task ← require (find_task l run.task_id) unknown_task
  ok (run, task)

abbrev pub conclude :
    (String → String → Bool)
    → Ledger
    → Run
    → Task
    → Observation
    → ℕ
    → Gate
    → Result (Ledger × Outcome)
conclude fnmatch l run task o now (Gate.stop reason) = block_verification l run.run_id reason now
conclude fnmatch l run task o now (Gate.raised e) = err e
conclude fnmatch l run task o now (Gate.admit manifest) =
    let outcome : Outcome = judge fnmatch task.payload run manifest o.checks in
    ok (commit_verification l run manifest o.snapshot_id outcome now, outcome)

unfoldable pub verify :
    (String → String → Bool) → Ledger → String → Observation → ℕ → Result (Ledger × Outcome)
unfolding begin_verification
verify fnmatch l run_id o now = do
  (run, task) ← begin_verification l run_id
  conclude fnmatch l run task o now (gate task.payload run o)
