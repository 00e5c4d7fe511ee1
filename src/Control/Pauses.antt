-- ===== src/Control/Pauses.antt =====
-- Pauses of the queue and of projects, and the removal of a project. `resume_project`,
-- `record_project_removed` and `project_removal_guard` take a project id that passed the pattern of
-- `pause_project`: their own test of it is not modelled.
use orch_kit.Prelude.{
  ℕ, String, Bool, true, false, not, ◌&&◌, ◌||◌, Option, none, some, List, find, delete, put, any,
  is_empty, is_project_id, select, truncate, strip, is_blank,
}
use orch_kit.Result.{
  Result, ok, ◌>>◌, guard, pause_reason_required, unknown_project_queue, invalid_project_id,
}
use orch_kit.Ledger.{
  PublicationStatus, Task, Publication, ProjectPause, EventKind, Ledger, find_run, find_task, Lock,
  add_event, same_text, active_writer_locks, is_done, is_cancelled,
}

unfoldable pub pause : Ledger → String → ℕ → Ledger
pause l reason now =
    add_event now EventKind.paused none none
      (record l { paused = some (record { reason = truncate 500 reason; paused_at = now }) })

unfoldable pub resume : Ledger → ℕ → Ledger
resume l now = add_event now EventKind.resumed none none (record l { paused = none })

abbrev pub pause_key : ProjectPause → String
pause_key p = p.project_id

abbrev pub find_pause : Ledger → String → Option ProjectPause
find_pause l project_id = find pause_key project_id l.project_pauses

abbrev pub is_of_project : String → Task → Bool
is_of_project project_id t = same_text t.project_id (some project_id)

unfoldable pub pause_project : Ledger → String → String → ℕ → Result Ledger
unfolding is_project_id is_blank any
pause_project l project_id reason now = do
  guard (is_project_id project_id) invalid_project_id
  guard (not (is_blank reason)) pause_reason_required
  guard (any (is_of_project project_id) l.tasks) unknown_project_queue
  let details : ProjectPause = record {
    project_id = project_id;
    reason = truncate 500 (strip reason);
    paused_at = now;
  }
  ok (
      add_event now (EventKind.project_paused project_id) none none
        (record l { project_pauses = put pause_key details l.project_pauses }))

-- The second result is `already_resumed`.
unfoldable pub resume_project : Ledger → String → ℕ → Ledger × Bool
resume_project l project_id now = elim (find_pause l project_id) [
  | none ↦ (l, true)
  | some p ↦ (
    add_event now (EventKind.project_resumed project_id) none none
        (record l { project_pauses = delete pause_key project_id l.project_pauses }),
    false,
  )
]

abbrev pub is_some {ℓ} : {A : Type ℓ} → Option A → Bool
is_some none = false
is_some (some a) = true

-- The second result is `cleared_pause`.
unfoldable pub record_project_removed : Ledger → String → ℕ → Ledger × Bool
record_project_removed l project_id now = (
  add_event now (EventKind.project_deregistered project_id (is_some (find_pause l project_id))) none
      none (record l { project_pauses = delete pause_key project_id l.project_pauses }),
  is_some (find_pause l project_id),
)

abbrev pub is_settled : PublicationStatus → Bool
is_settled PublicationStatus.complete = true
is_settled PublicationStatus.abandoned = true
is_settled _ = false

abbrev pub task_in_project : Ledger → String → String → Bool
task_in_project l project_id task_id = elim (find_task l task_id) [
  | none ↦ false
  | some t ↦ is_of_project project_id t
]

abbrev pub run_in_project : Ledger → String → String → Bool
run_in_project l project_id run_id = elim (find_run l run_id) [
  | none ↦ false
  | some r ↦ task_in_project l project_id r.task_id
]

pub record RemovalGuard : Type 0 where
  pub blocking_tasks : List Task
  pub writer_locks : List Lock
  pub pending_publications : List Publication

-- The lists of `project_removal_guard`, in the order of the tables. The locks are the values of the
-- dictionary by writer key, in which a later run hides an earlier one.
unfoldable pub project_removal_guard : Ledger → String → RemovalGuard
unfolding active_writer_locks
project_removal_guard l project_id = record {
  blocking_tasks =
      select
        (λ (t : Task).
          is_of_project project_id t && not (is_done t.status || is_cancelled t.status))
        l.tasks;
  writer_locks =
      select (λ (k : Lock). same_text k.project_id (some project_id)) (active_writer_locks l);
  pending_publications =
      select
        (λ (p : Publication). not (is_settled p.status) && run_in_project l project_id p.run_id)
        l.publications;
}

-- `status` is SAFE, and not BLOCKED.
unfoldable pub is_safe : RemovalGuard → Bool
is_safe g = is_empty g.blocking_tasks && is_empty g.writer_locks && is_empty g.pending_publications
