-- ===== src/Claim/Eligible.antt =====
-- What it means that the loop takes a row, or blocks one.
use orch_kit.Prelude.{
  String, ◌≡◌, refl, ◌<◌, ◌≤◌, ℕ, true, false, Option, none, some, List, [], ◌∷◌, find, All, ap,
  ◌∙◌, arith, if◌then◌else◌,
}
use orch_kit.Ledger.{
  Task, ProjectPause, Ledger, Lock, lock_key, find_run, find_task, attempts, dependencies_done,
  is_done, is_ready, active_writer_locks, lock_free,
}
use orch_kit.Lifecycle.{RunView, TaskView, IsDone, Holds}
use orch_kit.Lifecycle.Refinement.{view, run_view, task_view, map-eq-some}
use orch_kit.Claim.Queue.{Verdict, of_project, pause_of, consider}

-- The conditions under which a row of the queue is taken.
pub record IsEligible (project_id : Option String) (pauses : List ProjectPause) (locks : List Lock)
    (l : Ledger) (row : Task) : Type 0 where
  pub queued : is_ready row.status ≡ true
  pub wanted : of_project project_id row ≡ true
  pub unpaused : pause_of pauses row.project_id ≡ none
  pub dependencies : dependencies_done l row.payload.dependencies ≡ true
  pub room : attempts l row.task_id < row.payload.max_attempts
  pub free : find lock_key row.writer_key locks ≡ none

module _ (project_id : Option String) (pauses : List ProjectPause) (locks : List Lock) (l : Ledger)
    (row : Task) where
  pub consider-take :
      (n : ℕ)
      → consider project_id pauses locks l row ≡ Verdict.take n
      → IsEligible project_id pauses locks l row × (n ≡ attempts l row.task_id)
  unfolding consider
  consider-take n h = ground arith

  pub consider-eligible :
      IsEligible project_id pauses locks l row
      → consider project_id pauses locks l row ≡ Verdict.take (attempts l row.task_id)
  unfolding consider
  consider-eligible e = ground arith

  pub consider-exhausted :
      (n : ℕ)
      → consider project_id pauses locks l row ≡ Verdict.exhausted n
      → (is_ready row.status ≡ true)
        × (row.payload.max_attempts ≤ attempts l row.task_id)
        × (n ≡ attempts l row.task_id)
  unfolding consider
  consider-exhausted n h = ground arith

-- `_dependencies_done` sees that each dependency is a finished task.
pub dependencies_done-All :
    (l : Ledger) (deps : List String) → dependencies_done l deps ≡ true → All (IsDone (view l)) deps
unfolding dependencies_done
dependencies_done-All l [] h = tt
dependencies_done-All l (d ∷ ds) h = go (find_task l d) refl h (λ k. dependencies_done-All l ds k)
  where
    go :
        (o : Option Task)
        → find_task l d ≡ o
        → elim o [
          | none ↦ false
          | some t ↦ if is_done t.status then dependencies_done l ds else false
        ]
          ≡ true
        → (dependencies_done l ds ≡ true → All (IsDone (view l)) ds)
        → All (IsDone (view l)) (d ∷ ds)
    go none e k rest = cc
    go (some t) e k rest = ((task_view t, rw e, ground arith), rest (ground arith))

-- No run holds a writer key that the dictionary of locks lacks.
pub not-Holds :
    (l : Ledger) (k i : String)
    → find lock_key k (active_writer_locks l) ≡ none
    → ¬ Holds (view l) i k
not-Holds l k i free h =
    let (r, found, same) = map-eq-some run_view (find_run l i) h.row h.found in
    let joined : (view l).task r.task_id ≡ some h.owner =
      rw (← ap (λ (x : RunView). x.task_id) same) at h.joined in
    let (t, at_task, owner) = map-eq-some task_view (find_task l r.task_id) h.owner joined in
    lock_free l k i r t free found at_task (ground (arith, same, h.locked))
      (ap (λ (x : TaskView). x.writer_key) owner ∙ h.keyed)
