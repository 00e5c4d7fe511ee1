-- ===== src/Publication/Refines.antt =====
-- A publication completes its run, or leaves the runs and the tasks.
use mathlib.Core.Path.{subst}
use orch_kit.Prelude.{
  ℕ, String, ◌≡◌, refl, ap, false, Option, none, some, find, find-key, update, delete, arith,
}
use orch_kit.Result.{Result, ok, err, publication_reconciliation_required}
use orch_kit.Ledger.{
  RunState, TaskStatus, Run, Task, Manifest, Publication, PublicationStatus, Ledger, run_key,
  task_key, find_run, find_task, with_status,
}
use orch_kit.Lifecycle.{Edge}
use orch_kit.Lifecycle.Invariant.{Inv}
use orch_kit.Lifecycle.Refinement.{view, Refine, Step-stay, Step-update}
use orch_kit.Completion.{assert_snapshot_current, completed_at}
use orch_kit.Publication.Defs.{
  happens, PublishProbe, Published, publication_key, publish_new, verified_run, publish,
}
use orch_kit.Publication.Ends.{is_finished, Shown, Ends, publish_new-Ends}

-- The run that `publish` works on.
record Begun (l : Ledger) (run_id : String) (r : Run) (t : Task) : Type 0 where
  pub found : find_run l run_id ≡ some r
  pub state : r.state ≡ RunState.verified
  pub joined : find_task l r.task_id ≡ some t

verified_run-Begun :
    (l : Ledger) (run_id : String) (current : Result (Unit {0})) (r : Run) (t : Task)
    (manifest : Manifest)
    → verified_run l run_id current ≡ ok (r, t, manifest)
    → Begun l run_id r t
unfolding verified_run assert_snapshot_current
verified_run-Begun l run_id current r t manifest h = ground arith

-- What a publication does to the two tables.
pub data Publishes (l : Ledger) (run_id : String) (p : PublishProbe) (now : ℕ)
    (x : Ledger × Published) : Type 0 where
  kept :
      is_finished x.1 ≡ false → x.0.runs ≡ l.runs → x.0.tasks ≡ l.tasks → Publishes l run_id p now x
  repeated :
      (row : Publication)
      → find publication_key run_id l.publications ≡ some row
      → row.status ≡ PublicationStatus.complete
      → x ≡ (l, Published.finished row.commit_id row.remote_commit)
      → Publishes l run_id p now x
  completed :
      (r : Run) (t : Task) (commit : String) (remote : Option String)
      → find_run l run_id ≡ some r
      → r.state ≡ RunState.verified
      → find_task l r.task_id ≡ some t
      → p.commit ≡ happens commit
      → x.1 ≡ Published.finished (some commit) remote
      → x.0.runs ≡ update run_key run_id (completed_at now) l.runs
      → x.0.tasks ≡ update task_key r.task_id (with_status TaskStatus.done now) l.tasks
      → Shown t.payload.publication.kind p commit remote
      → Publishes l run_id p now x

module _ (l : Ledger) (run_id : String) (p : PublishProbe) (now : ℕ) where
  Ends-Publishes :
      (r : Run) (t : Task) (x : Ledger × Published)
      → Begun l run_id r t
      → Ends l.runs l.tasks r t p now x
      → Publishes l run_id p now x
  Ends-Publishes r t x b (Ends.kept u e f) = Publishes.kept u e f
  Ends-Publishes r t x b (Ends.completed commit remote made reply e f shown) =
      let key : r.run_id ≡ run_id = find-key run_key run_id l.runs b.found in
      Publishes.completed r t commit remote b.found b.state b.joined made reply
        (subst (λ k. x.0.runs ≡ update run_key k (completed_at now) l.runs) key e) f shown

  -- A publication fails and leaves the runs and the tasks; or finds that the run's publication is complete,
  -- reports what its row has and leaves the ledger; or completes the run that was verified and finishes its
  -- task. In the last case it reports the commit that its commit step made, and that commit was either published
  -- locally, for a kind other than `git` and with no remote commit reported, or, for `git`, pushed without
  -- an error, read back from the remote as that same commit, and reported as the remote commit.
  pub publish-Publishes :
      (current : Result (Unit {0})) → Publishes l run_id p now (publish l run_id current p now)
  unfolding publish
  publish-Publishes current = go (verified_run l run_id current) refl
    where
      Run3 : Type 0
      Run3 = Run × Task × Manifest

      by_status :
          (r : Run) (t : Task) (manifest : Manifest) (row : Publication)
          → PublicationStatus
          → Ledger × Published
      by_status r t manifest row s = elim s [
        | PublicationStatus.complete ↦ (l, Published.finished row.commit_id row.remote_commit)
        | PublicationStatus.abandoned ↦
            publish_new r t p now
              (record l { publications = delete publication_key run_id l.publications }) manifest
        | _ ↦ (l, Published.refused publication_reconciliation_required)
      ]

      by_row : (r : Run) (t : Task) (manifest : Manifest) → Option Publication → Ledger × Published
      by_row r t manifest o = elim o [
        | none ↦ publish_new r t p now l manifest
        | some row ↦ by_status r t manifest row row.status
      ]

      status_case :
          (r : Run) (t : Task) (manifest : Manifest) (row : Publication) (s : PublicationStatus)
          → find publication_key run_id l.publications ≡ some row
          → row.status ≡ s
          → Begun l run_id r t
          → Publishes l run_id p now (by_status r t manifest row s)
      status_case r t manifest row PublicationStatus.complete found e b =
          Publishes.repeated row found e refl
      status_case r t manifest row PublicationStatus.abandoned found e b =
          Ends-Publishes r t _ b (publish_new-Ends r t p now l.runs l.tasks _ manifest refl refl)
      status_case r t manifest row _ found e b = Publishes.kept refl refl refl

      row_case :
          (r : Run) (t : Task) (manifest : Manifest) (o : Option Publication)
          → find publication_key run_id l.publications ≡ o
          → Begun l run_id r t
          → Publishes l run_id p now (by_row r t manifest o)
      row_case r t manifest none found b =
          Ends-Publishes r t _ b (publish_new-Ends r t p now l.runs l.tasks l manifest refl refl)
      row_case r t manifest (some row) found b =
          status_case r t manifest row row.status found refl b

      go :
          (o : Result Run3)
          → verified_run l run_id current ≡ o
          → Publishes l run_id p now (elim o as (λ x. Ledger × Published) [
            | err e ↦ (l, Published.refused e)
            | ok (r, t, manifest) ↦ by_row r t manifest (find publication_key run_id l.publications)
          ])
      go (err e) h = Publishes.kept refl refl refl
      go (ok (r, t, manifest)) h =
          row_case r t manifest (find publication_key run_id l.publications) refl
            (verified_run-Begun l run_id current r t manifest h)

  pub publish-Step :
      (current : Result (Unit {0})) → Inv (view l) → Refine l (publish l run_id current p now).0
  publish-Step current inv = go (publish l run_id current p now) (publish-Publishes current)
    where
      go : (x : Ledger × Published) → Publishes l run_id p now x → Refine l x.0
      go x (Publishes.kept u e f) = Step-stay l x.0 e f
      go x (Publishes.repeated row found e same) =
          Step-stay l x.0 (ap (λ y. y.0.runs) same) (ap (λ y. y.0.tasks) same)
      go x (Publishes.completed r t commit remote found state joined made reply e f shown) =
          Step-update {f = completed_at now} {status = some TaskStatus.done} {now = now} inv
            (record { found = found; state = state; runs = e; tasks = f })
            (record { key = λ x. refl; task = λ x. refl; number = λ x. refl }) Edge.complete
