-- ===== src/Claim/Queue.antt =====
-- The loop over the tasks in queue order, as `claim` and as `next_work` run it.
use text.Mathlib.Text.{is_lt}
use Prim.Native.String.{compare}
use orch_kit.Prelude.{
  ℕ, String, Bool, true, not, ◌&&◌, ◌||◌, Option, none, some, List, [], ◌∷◌, ◌++◌, ltb, leb, nat_eq,
  find, if◌then◌else◌,
}
use orch_kit.Ledger.{
  TaskStatus, Task, ProjectPause, EventKind, Ledger, Lock, lock_key, set_status, add_event,
  attempts, dependencies_done, same_text, is_ready,
}

-- ORDER BY queue_seq,task_id
abbrev pub before : Task → Task → Bool
before t u =
    ltb t.queue_seq u.queue_seq
    || (nat_eq t.queue_seq u.queue_seq && is_lt (compare t.task_id u.task_id))

unfoldable pub insert_task : Task → List Task → List Task
insert_task t [] = t ∷ []
insert_task t (u ∷ us) = if before u t then u ∷ insert_task t us else t ∷ u ∷ us

unfoldable pub queue_order : List Task → List Task
unfolding insert_task
queue_order [] = []
queue_order (t ∷ ts) = insert_task t (queue_order ts)

abbrev pub of_project : Option String → Task → Bool
of_project none t = true
of_project (some p) t = same_text t.project_id (some p)

abbrev pub pause_of : List ProjectPause → Option String → Option ProjectPause
pause_of pauses none = none
pause_of pauses (some p) = find (λ (q : ProjectPause). q.project_id) p pauses

-- What the loop makes of one row.
pub data Verdict : Type 0 where
  skip : Verdict
  paused : ProjectPause → Verdict
  exhausted : ℕ → Verdict
  busy : Lock → Verdict
  take : ℕ → Verdict

abbrev pub unpaused : List Lock → Ledger → Task → Verdict
unpaused locks l row =
    if not (dependencies_done l row.payload.dependencies)
    then Verdict.skip
    else if leb row.payload.max_attempts (attempts l row.task_id)
    then Verdict.exhausted (attempts l row.task_id)
    else elim (find lock_key row.writer_key locks) [
      | some lock ↦ Verdict.busy lock
      | none ↦ Verdict.take (attempts l row.task_id)
    ]

unfoldable pub consider : Option String → List ProjectPause → List Lock → Ledger → Task → Verdict
consider project_id pauses locks l row =
    if not (is_ready row.status) || not (of_project project_id row)
    then Verdict.skip
    else elim (pause_of pauses row.project_id) [
      | some p ↦ Verdict.paused p
      | none ↦ unpaused locks l row
    ]

pub record Candidate : Type 0 where
  pub task : Task
  pub attempts : ℕ

pub record Scan : Type 0 where
  pub ledger : Ledger
  pub busy : List Lock
  pub paused : List ProjectPause
  pub selected : Option Candidate

unfoldable pub block_exhausted : Ledger → Task → ℕ → ℕ → Ledger
block_exhausted l row n now =
    add_event now (EventKind.task_blocked_max_attempts n) (some row.task_id) none
      (set_status row.task_id TaskStatus.blocked now l)

module _ (project_id : Option String) (pauses : List ProjectPause) (locks : List Lock)
    (now : ℕ) where
  -- The loop of `claim`. A task without attempts left is blocked on the way.
  unfoldable pub scan : Ledger → List Lock → List ProjectPause → List Task → Scan
  scan l held stopped [] = record { ledger = l; busy = held; paused = stopped; selected = none }
  scan l held stopped (row ∷ rows) = elim (consider project_id pauses locks l row) [
    | Verdict.skip ↦ scan l held stopped rows
    | Verdict.paused p ↦ scan l held (stopped ++ p ∷ []) rows
    | Verdict.exhausted n ↦ scan (block_exhausted l row n now) held stopped rows
    | Verdict.busy lock ↦ scan l (held ++ lock ∷ []) stopped rows
    | Verdict.take n ↦ record {
      ledger = l;
      busy = held;
      paused = stopped;
      selected = some (record { task = row; attempts = n });
    }
  ]

  -- The loop of `next_work`, which writes nothing.
  unfoldable pub look : Ledger → List Lock → List ProjectPause → List Task → Scan
  look l held stopped [] = record { ledger = l; busy = held; paused = stopped; selected = none }
  look l held stopped (row ∷ rows) = elim (consider project_id pauses locks l row) [
    | Verdict.skip ↦ look l held stopped rows
    | Verdict.paused p ↦ look l held (stopped ++ p ∷ []) rows
    | Verdict.exhausted n ↦ look l held stopped rows
    | Verdict.busy lock ↦ look l (held ++ lock ∷ []) stopped rows
    | Verdict.take n ↦ record {
      ledger = l;
      busy = held;
      paused = stopped;
      selected = some (record { task = row; attempts = n });
    }
  ]
