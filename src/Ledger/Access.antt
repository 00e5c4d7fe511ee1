-- ===== src/Ledger/Access.antt =====
-- Reads and writes that many operations of orch/core.py share.
use orch_kit.Prelude.{
  ℕ, String, Bool, true, false, Option, none, some, List, [], ◌∷◌, ◌++◌, ◌==◌, find, update, delete,
  count, if◌then◌else◌,
}
use orch_kit.Ledger.State.{TaskStatus, is_done}
use orch_kit.Ledger.Rows.{Task, Run, EventKind, Ledger, Snapshot, Manifest, Approval, Capability}

abbrev pub empty : Ledger
empty = record {
  plans = [];
  tasks = [];
  runs = [];
  snapshots = [];
  paused = none;
  project_pauses = [];
  checkpoints = [];
  approvals = [];
  events = [];
  publications = [];
  capabilities = [];
}

abbrev pub run_key : Run → String
run_key r = r.run_id

abbrev pub task_key : Task → String
task_key t = t.task_id

-- SELECT * FROM runs WHERE run_id=?
abbrev pub find_run : Ledger → String → Option Run
find_run l run_id = find run_key run_id l.runs

-- SELECT * FROM tasks WHERE task_id=?
abbrev pub find_task : Ledger → String → Option Task
find_task l task_id = find task_key task_id l.tasks

-- UPDATE runs SET … WHERE run_id=?
abbrev pub set_run : String → (Run → Run) → Ledger → Ledger
set_run run_id f l = record l { runs = update run_key run_id f l.runs }

abbrev pub with_status : TaskStatus → ℕ → Task → Task
with_status s now t = record t { status = s; updated_at = now }

-- UPDATE tasks SET status=?,updated_at=? WHERE task_id=?
abbrev pub set_status : String → TaskStatus → ℕ → Ledger → Ledger
set_status task_id s now l = record l {
  tasks = update task_key task_id (with_status s now) l.tasks;
}

-- `_event`
abbrev pub add_event : ℕ → EventKind → Option String → Option String → Ledger → Ledger
add_event now kind task_id run_id l = record l {
  events = l.events ++ record { at = now; kind = kind; task_id = task_id; run_id = run_id } ∷ [];
}

-- SELECT COUNT(*) AS n FROM runs WHERE task_id=?
unfoldable pub attempts : Ledger → String → ℕ
attempts l task_id = count (λ r. r.task_id == task_id) l.runs

-- `_dependencies_done`
unfoldable pub dependencies_done : Ledger → List String → Bool
dependencies_done l [] = true
dependencies_done l (dep ∷ deps) = elim (find_task l dep) [
  | none ↦ false
  | some t ↦ if is_done t.status then dependencies_done l deps else false
]

-- `_revoke_capability`, whose refusal of a symbolic link is not modelled
abbrev pub revoke_capability : String → Ledger → Ledger
revoke_capability run_id l = record l {
  capabilities = delete (λ (c : Capability). c.run_id) run_id l.capabilities;
}

-- SELECT manifest_json FROM snapshots WHERE snapshot_id=?
abbrev pub find_manifest : Ledger → Option String → Option Manifest
find_manifest l none = none
find_manifest l (some snapshot_id) =
    elim (find (λ (s : Snapshot). s.snapshot_id) snapshot_id l.snapshots) [
      | none ↦ none
      | some s ↦ some s.manifest
    ]

abbrev pub same_text : Option String → Option String → Bool
same_text none none = true
same_text (some a) (some b) = a == b
same_text _ _ = false

-- The owner's approval is there and is of the run's snapshot.
unfoldable pub is_approved : Ledger → Run → Bool
is_approved l r = elim (find (λ (a : Approval). a.run_id) r.run_id l.approvals) [
  | none ↦ false
  | some a ↦ same_text a.snapshot_id r.snapshot_id
]
