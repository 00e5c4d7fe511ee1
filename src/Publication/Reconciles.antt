-- ===== src/Publication/Reconciles.antt =====
-- A reconciliation completes a publication that is proven, or leaves the runs and the tasks.
use mathlib.Core.Path.{subst}
use orch_kit.Prelude.{
  ℕ, String, ◌≡◌, refl, Bool, true, false, Option, none, some, find, find-key, update,
}
use orch_kit.Ledger.{
  TaskStatus, Run, Task, Manifest, Publication, Ledger, run_key, task_key, find_run, find_task,
  find_manifest, with_status,
}
use orch_kit.Result.{unknown_run, unknown_task, snapshot_missing}
use orch_kit.Completion.{completed_at}
use orch_kit.Publication.Defs.{publication_key}
use orch_kit.Publication.Reconcile.{
  ReconcileProbe, Reconciled, reconcile_row, base_of, is_finished, reconcile_publication,
}
use orch_kit.Publication.Stages.{Proven, Ends, reconcile_row-Good}

-- What a reconciliation does to the two tables.
pub data Reconciles (l : Ledger) (run_id : String) (p : ReconcileProbe) (now : ℕ) (m : Ledger)
    : Type 0 where
  kept : m.runs ≡ l.runs → m.tasks ≡ l.tasks → Reconciles l run_id p now m
  completed :
      (row : Publication) (r : Run) (t : Task) (commit : String)
      → find publication_key run_id l.publications ≡ some row
      → is_finished row.status ≡ false
      → find_run l run_id ≡ some r
      → find_task l r.task_id ≡ some t
      → m.runs ≡ update run_key run_id (completed_at now) l.runs
      → m.tasks ≡ update task_key r.task_id (with_status TaskStatus.done now) l.tasks
      → Proven t p commit
      → Reconciles l run_id p now m

module _ (l : Ledger) (run_id : String) (p : ReconcileProbe) (now : ℕ) where
  Ends-Reconciles :
      (row : Publication) (r : Run) (t : Task) (x : Ledger × Reconciled)
      → find publication_key run_id l.publications ≡ some row
      → is_finished row.status ≡ false
      → find_run l run_id ≡ some r
      → find_task l r.task_id ≡ some t
      → Ends l.runs l.tasks r t p now x
      → Reconciles l run_id p now x.0
  Ends-Reconciles row r t x a b c d (Ends.kept e f) = Reconciles.kept e f
  Ends-Reconciles row r t x a b c d (Ends.completed commit e f proven) =
      let key : r.run_id ≡ run_id = find-key run_key run_id l.runs c in
      Reconciles.completed row r t commit a b c d
        (subst (λ k. x.0.runs ≡ update run_key k (completed_at now) l.runs) key e) f proven

  -- A reconciliation leaves the runs and the tasks, or it completes the run of a publication that was begun
  -- and not finished, and finishes its task; then the commit holds the run's snapshot, and where the
  -- publication is not a local one, the remote showed that commit.
  pub reconcile_publication-Reconciles :
      (resume : Bool) → Reconciles l run_id p now (reconcile_publication l run_id resume p now).0
  unfolding reconcile_publication
  reconcile_publication-Reconciles resume = by_row (find publication_key run_id l.publications) refl
    where
      at_base : Publication → Run → Task → Option String → Ledger × Reconciled
      at_base row run task o = elim o [
        | none ↦ (l, Reconciled.blocked "publication_expected_base_missing")
        | some base ↦ reconcile_row run task base resume p now l row
      ]

      open_row :
          (row : Publication) (run : Run) (task : Task) (manifest : Manifest)
          → Bool
          → Ledger × Reconciled
      open_row row run task manifest b = elim b [
        | true ↦ (l, Reconciled.finished row.commit_id row.remote_commit)
        | false ↦ at_base row run task (base_of row task manifest)
      ]

      by_base :
          (row : Publication) (run : Run) (task : Task) (o : Option String)
          → find publication_key run_id l.publications ≡ some row
          → is_finished row.status ≡ false
          → find_run l run_id ≡ some run
          → find_task l run.task_id ≡ some task
          → Reconciles l run_id p now (at_base row run task o).0
      by_base row run task none a b c d = Reconciles.kept refl refl
      by_base row run task (some base) a b c d =
          Ends-Reconciles row run task _ a b c d
            (reconcile_row-Good run task base resume p now l.runs l.tasks l row refl refl)

      by_status :
          (row : Publication) (run : Run) (task : Task) (manifest : Manifest) (s : Bool)
          → is_finished row.status ≡ s
          → find publication_key run_id l.publications ≡ some row
          → find_run l run_id ≡ some run
          → find_task l run.task_id ≡ some task
          → Reconciles l run_id p now (open_row row run task manifest s).0
      by_status row run task manifest true b a c d = Reconciles.kept refl refl
      by_status row run task manifest false b a c d =
          by_base row run task (base_of row task manifest) a b c d

      by_manifest :
          (row : Publication) (run : Run) (task : Task) (o : Option Manifest)
          → find publication_key run_id l.publications ≡ some row
          → find_run l run_id ≡ some run
          → find_task l run.task_id ≡ some task
          → Reconciles l run_id p now
              (elim o as (λ c. Ledger × Reconciled) [
                | none ↦ (l, Reconciled.refused snapshot_missing)
                | some manifest ↦ open_row row run task manifest (is_finished row.status)
              ]).0
      by_manifest row run task none a c d = Reconciles.kept refl refl
      by_manifest row run task (some manifest) a c d =
          by_status row run task manifest (is_finished row.status) refl a c d

      by_task :
          (row : Publication) (run : Run) (o : Option Task)
          → find_task l run.task_id ≡ o
          → find publication_key run_id l.publications ≡ some row
          → find_run l run_id ≡ some run
          → Reconciles l run_id p now
              (elim o as (λ c. Ledger × Reconciled) [
                | none ↦ (l, Reconciled.refused unknown_task)
                | some task ↦ elim (find_manifest l run.snapshot_id) as (λ c. Ledger × Reconciled) [
                  | none ↦ (l, Reconciled.refused snapshot_missing)
                  | some manifest ↦ open_row row run task manifest (is_finished row.status)
                ]
              ]).0
      by_task row run none d a c = Reconciles.kept refl refl
      by_task row run (some task) d a c =
          by_manifest row run task (find_manifest l run.snapshot_id) a c d

      rest : Publication → Option Run → Ledger × Reconciled
      rest row o = elim o [
        | none ↦ (l, Reconciled.refused unknown_run)
        | some run ↦ elim (find_task l run.task_id) [
          | none ↦ (l, Reconciled.refused unknown_task)
          | some task ↦ elim (find_manifest l run.snapshot_id) [
            | none ↦ (l, Reconciled.refused snapshot_missing)
            | some manifest ↦ open_row row run task manifest (is_finished row.status)
          ]
        ]
      ]

      by_run :
          (row : Publication) (o : Option Run)
          → find_run l run_id ≡ o
          → find publication_key run_id l.publications ≡ some row
          → Reconciles l run_id p now (rest row o).0
      by_run row none c a = Reconciles.kept refl refl
      by_run row (some run) c a = by_task row run (find_task l run.task_id) refl a c

      by_row :
          (o : Option Publication)
          → find publication_key run_id l.publications ≡ o
          → Reconciles l run_id p now
              (elim o as (λ c. Ledger × Reconciled) [
                | none ↦ (l, Reconciled.no_publication)
                | some row ↦ rest row (find_run l run_id)
              ]).0
      by_row none a = Reconciles.kept refl refl
      by_row (some row) a = by_run row (find_run l run_id) refl a
